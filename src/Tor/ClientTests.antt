-- ===== src/Tor/ClientTests.antt =====
-- Runs of internal/tor/clientauth.go on concrete clients, and its theorems at such inputs.
use mathlib.Core.List.{Mem}
use mathlib.Core.List.Perm
use tor_gateway.Base.{
  ◌≡◌, refl, true, none, some, List, [], ◌∷◌, ◌++◌, Memᴰ, Bytes, codes, bytes_eq,
}
use tor_gateway.Tor.Samples.{repeated}
use tor_gateway.Tor.Onion.{trim_space}
use tor_gateway.Tor.ClientAuth.{
  AuthError, validate_auth_entry, value_at, auth_file, WriteOutcome, write_authorized_clients,
  FileKind, load_authorized_clients_from_dir,
}
use tor_gateway.Tor.ClientAuth.Files.{
  IsAuthFile, write_authorized_clients-IsAuthFile, write_authorized_clients_complete,
}

abbrev two_clients : List (Bytes × Bytes)
two_clients = (codes "../up", repeated 52 65) ∷ (codes "alice", repeated 52 97 ++ codes "\n") ∷ []

abbrev as_listed : List Bytes → List Bytes
as_listed xs = xs

abbrev two_written : List (Bytes × Bytes) × WriteOutcome
two_written = write_authorized_clients as_listed true (λ l. true) (codes "/hs") two_clients

-- The key of a lower-case client is written as it was given.
alice_only : two_written ≡ (
  auth_file (codes "alice") (repeated 52 97) ∷ [],
  WriteOutcome.skipped ((codes "../up", AuthError.invalid_label) ∷ []),
)
unfolding write_authorized_clients bytes_eq
alice_only = refl

alice_written : Memᴰ (auth_file (codes "alice") (repeated 52 97)) two_written.0
unfolding write_authorized_clients bytes_eq
alice_written = Memᴰ.head refl

write_authorized_clients-IsAuthFile_example :
    IsAuthFile (auth_file (codes "alice") (repeated 52 97))
write_authorized_clients-IsAuthFile_example =
    write_authorized_clients-IsAuthFile as_listed true (λ l. true) (codes "/hs") two_clients
      (auth_file (codes "alice") (repeated 52 97)) alice_written

alice_valid :
    validate_auth_entry (codes "alice") (trim_space (value_at (codes "alice") two_clients)) ≡ none
unfolding validate_auth_entry trim_space value_at bytes_eq
alice_valid = refl

write_authorized_clients_complete_example :
    Mem
      (auth_file (codes "alice") (trim_space (value_at (codes "alice") two_clients)))
      two_written.0
write_authorized_clients_complete_example =
    write_authorized_clients_complete as_listed (λ l. true) b'/' (codes "hs") two_clients
      (codes "alice") (λ xs. Perm.rfl) (λ l. refl) ∣ Memᴰ.tail (Memᴰ.head refl) ∣₁ alice_valid

kubelet_links_skipped :
    load_authorized_clients_from_dir (
      some (
        record { name = codes "..data"; kind = some FileKind.symlink; contents = none }
        ∷ record {
          name = codes "alice";
          kind = some FileKind.symlink;
          contents = some (codes "KEY\n");
        }
        ∷ []))
    ≡ some ((codes "alice", codes "KEY") ∷ [])
unfolding load_authorized_clients_from_dir
kubelet_links_skipped = refl
