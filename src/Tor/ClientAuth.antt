-- ===== src/Tor/ClientAuth.antt =====
-- internal/tor/clientauth.go: the files that authorize clients. Text is ASCII, the part of Go's tables
-- for case and white space that is modelled; a map is a list of entries. Reading the directory, creating
-- it and writing a file are parameters, and so is sort.Strings.
pub mod Files
use tor_gateway.Base.{
  ℕ, Bool, true, false, Option, none, some, List, [], ◌∷◌, ◌++◌, map, Bytes, codes, all, length,
  eqb, leb, not, bytes_eq, if◌then◌else◌, ◌&&◌, ◌||◌,
}
use tor_gateway.Tor.Onion.{to_upper, trim_space}

abbrev pub auth_file_suffix : Bytes
auth_file_suffix = codes ".auth"

-- `[a-z0-9]`
abbrev pub is_label_end : ℕ → Bool
is_label_end c = (leb b'a' c && leb c b'z') || (leb b'0' c && leb c b'9')

-- `[-a-z0-9]`
abbrev pub is_label_char : ℕ → Bool
is_label_char c = eqb c b'-' || is_label_end c

-- The last byte, or the given one where there is none.
unfoldable pub last_of : ℕ → Bytes → ℕ
last_of c [] = c
last_of c (b ∷ s) = last_of b s

-- `^[a-z0-9]([-a-z0-9]{0,62}[a-z0-9])?$`
unfoldable pub client_label_pattern : Bytes → Bool
unfolding last_of
client_label_pattern [] = false
client_label_pattern (c ∷ s) =
    is_label_end c && (leb (length s) 63 && (all is_label_char s && is_label_end (last_of c s)))

-- `[A-Z2-7]`
abbrev pub is_key_char : ℕ → Bool
is_key_char c = (leb b'A' c && leb c b'Z') || (leb b'2' c && leb c b'7')

-- `^[A-Z2-7]{52}$`
unfoldable pub pubkey_pattern : Bytes → Bool
pubkey_pattern s = eqb (length s) 52 && all is_key_char s

pub data AuthError : Type 0 where
  invalid_label invalid_pubkey : AuthError

unfoldable pub validate_auth_entry : Bytes → Bytes → Option AuthError
unfolding client_label_pattern pubkey_pattern
validate_auth_entry label pubkey =
    if not (client_label_pattern label)
    then some AuthError.invalid_label
    else if not (pubkey_pattern (map to_upper pubkey))
    then some AuthError.invalid_pubkey
    else none

-- The value under a key of the map, empty where there is none.
unfoldable pub value_at : Bytes → List (Bytes × Bytes) → Bytes
value_at k [] = []
value_at k (e ∷ es) = if bytes_eq e.0 k then e.1 else value_at k es

-- The files that were written, by their names in the directory, the entries that were skipped, and the
-- file whose writing failed.
pub record Report : Type 0 where
  pub files : List (Bytes × Bytes)
  pub rejected : List (Bytes × AuthError)
  pub failed : Option Bytes

abbrev pub auth_file : Bytes → Bytes → Bytes × Bytes
auth_file label raw = (label ++ auth_file_suffix, codes "descriptor:x25519:" ++ (raw ++ codes "\n"))

-- An entry before those that remain.
add_entry : (Bytes → Bool) → Bytes → Bytes → Option AuthError → Report → Report
add_entry writes label raw (some e) rest = record {
  files = rest.files;
  rejected = (label, e) ∷ rest.rejected;
  failed = rest.failed;
}
add_entry writes label raw none rest =
    if writes label
    then record {
      files = auth_file label raw ∷ rest.files;
      rejected = rest.rejected;
      failed = rest.failed;
    }
    else record { files = []; rejected = []; failed = some label }

unfoldable pub write_entries : (Bytes → Bool) → List (Bytes × Bytes) → List Bytes → Report
unfolding add_entry validate_auth_entry trim_space value_at
write_entries writes clients [] = record { files = []; rejected = []; failed = none }
write_entries writes clients (label ∷ labels) =
    let raw = trim_space (value_at label clients) in
    add_entry writes label raw (validate_auth_entry label raw) (write_entries writes clients labels)

pub data WriteOutcome : Type 0 where
  done missing_out_dir create_failed : WriteOutcome
  write_failed : Bytes → WriteOutcome
  skipped : List (Bytes × AuthError) → WriteOutcome

outcome_of : Option Bytes → List (Bytes × AuthError) → WriteOutcome
outcome_of (some label) rejected = WriteOutcome.write_failed label
outcome_of none [] = WriteOutcome.done
outcome_of none (e ∷ rejected) = WriteOutcome.skipped (e ∷ rejected)

-- The files in the directory that this call wrote, and its error.
unfoldable pub write_authorized_clients :
    (List Bytes → List Bytes)
    → Bool
    → (Bytes → Bool)
    → Bytes
    → List (Bytes × Bytes)
    → List (Bytes × Bytes) × WriteOutcome
unfolding write_entries outcome_of
write_authorized_clients sort_strings creates writes [] clients = ([], WriteOutcome.missing_out_dir)
write_authorized_clients sort_strings creates writes (c ∷ out_dir) clients =
    let report = write_entries writes clients (sort_strings (map (λ e. e.0) clients)) in
    if not creates
    then ([], WriteOutcome.create_failed)
    else (report.files, outcome_of report.failed report.rejected)

pub data FileKind : Type 0 where
  regular symlink other : FileKind

-- An entry of a directory: its kind, none where Info fails, and its contents, none where it cannot be
-- read.
pub record DirEntry : Type 0 where
  pub name : Bytes
  pub kind : Option FileKind
  pub contents : Option Bytes

unfoldable pub is_hidden : Bytes → Bool
is_hidden (a ∷ b ∷ s) = eqb a b'.' && eqb b b'.'
is_hidden _ = false

add_client : Bytes → Option Bytes → Option (List (Bytes × Bytes)) → Option (List (Bytes × Bytes))
unfolding trim_space
add_client name none rest = none
add_client name (some text) none = none
add_client name (some text) (some out) = some ((name, trim_space text) ∷ out)

load_entry :
    DirEntry → Option FileKind → Option (List (Bytes × Bytes)) → Option (List (Bytes × Bytes))
unfolding add_client
load_entry e none rest = none
load_entry e (some FileKind.other) rest = rest
load_entry e (some FileKind.regular) rest = add_client e.name e.contents rest
load_entry e (some FileKind.symlink) rest = add_client e.name e.contents rest

unfoldable pub load_entries : List DirEntry → Option (List (Bytes × Bytes))
unfolding load_entry is_hidden
load_entries [] = some []
load_entries (e ∷ es) =
    let rest = load_entries es in if is_hidden e.name then rest else load_entry e e.kind rest

-- The reading of the directory is none where it fails.
unfoldable pub load_authorized_clients_from_dir :
    Option (List DirEntry) → Option (List (Bytes × Bytes))
unfolding load_entries
load_authorized_clients_from_dir none = none
load_authorized_clients_from_dir (some es) = load_entries es
