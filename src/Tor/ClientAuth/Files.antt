-- ===== src/Tor/ClientAuth/Files.antt =====
-- What WriteAuthorizedClients of internal/tor/clientauth.go leaves in the directory.
use mathlib.Core.Logic.{∥∥₁_map}
use mathlib.Core.List.{Mem, Perm}
use mathlib.Core.List.Perm
use tor_gateway.Base.{
  ℕ, ◌≡◌, ◌≢◌, ◌⊎◌, ◌≤◌, refl, sym, ◌∙◌, inl, inr, Bool, true, false, Option, none, some, List, [],
  ◌∷◌, map, Memᴰ, All, Bytes, all, length, length-map, eqb, eqb_iff, leb, if◌then◌else◌, ◌&&◌,
  and_parts, Bool-cases, arith,
}
use tor_gateway.Tor.Onion.{to_upper, trim_space}
use tor_gateway.Tor.ClientAuth.{
  is_label_end, is_label_char, last_of, client_label_pattern, is_key_char, pubkey_pattern,
  AuthError, validate_auth_entry, value_at, Report, auth_file, add_entry, write_entries,
  write_authorized_clients,
}

-- A name of one component that is neither hidden nor a way up.
pub record IsPlainName (label : Bytes) : Type 0 where
  pub no_slash : All (λ c. c ≢ b'/') label
  pub no_dot : All (λ c. c ≢ b'.') label
  pub some_byte : length label ≢ 0

-- A letter in either case, or one of the digits 2 to 7.
unfoldable pub IsBase32 : ℕ → Type 0
IsBase32 c = ((b'a' ≤ c) × (c ≤ b'z')) ⊎ (((b'A' ≤ c) × (c ≤ b'Z')) ⊎ ((b'2' ≤ c) × (c ≤ b'7')))

-- A key of 52 letters and digits of base32, in either case.
pub record IsKeyText (key : Bytes) : Type 0 where
  pub size : length key ≡ 52
  pub base32 : All IsBase32 key
  pub one_line : All (λ c. c ≢ b'\n') key

all_chars :
    (p : ℕ → Bool) (P : ℕ → Type 0) (s : Bytes)
    → ((c : ℕ) → p c ≡ true → P c)
    → all p s ≡ true
    → All P s
all_chars p P [] k h = tt
all_chars p P (c ∷ s) k h = let (a, b) = and_parts (p c) (all p s) h in (k c a, all_chars p P s k b)

label_char_plain : (c : ℕ) → is_label_char c ≡ true → (c ≢ b'/') × (c ≢ b'.')
label_char_plain c h = (λ e. absurd (cc (rw e at h)), λ e. absurd (cc (rw e at h)))

label_end_char : (c : ℕ) → is_label_end c ≡ true → is_label_char c ≡ true
label_end_char c h = ground arith

pattern-IsPlainName : (label : Bytes) → client_label_pattern label ≡ true → IsPlainName label
unfolding client_label_pattern
pattern-IsPlainName [] h = absurd (cc h)
pattern-IsPlainName (c ∷ s) h =
    let (first, more) =
      and_parts (is_label_end c)
        (leb (length s) 63 && (all is_label_char s && is_label_end (last_of c s))) h in
    let (short, chars) =
      and_parts (leb (length s) 63) (all is_label_char s && is_label_end (last_of c s)) more in
    let (inner, last) = and_parts (all is_label_char s) (is_label_end (last_of c s)) chars in
    let plain = label_char_plain c (label_end_char c first) in
    record {
      no_slash = (
        plain.0,
        all_chars is_label_char (λ d. d ≢ b'/') s (λ d k. (label_char_plain d k).0) inner,
      );
      no_dot = (
        plain.1,
        all_chars is_label_char (λ d. d ≢ b'.') s (λ d k. (label_char_plain d k).1) inner,
      );
      some_byte = λ e. absurd (omega arith);
    }

key_char_line : (c : ℕ) → is_key_char (to_upper c) ≡ true → c ≢ b'\n'
key_char_line c h e = absurd (cc (rw e at h))

key_char-IsBase32 : (c : ℕ) → is_key_char (to_upper c) ≡ true → IsBase32 c
unfolding IsBase32
key_char-IsBase32 c h = ground arith

upper-IsBase32 : (s : Bytes) → all is_key_char (map to_upper s) ≡ true → All IsBase32 s
upper-IsBase32 [] h = tt
upper-IsBase32 (c ∷ s) h =
    let (a, b) = and_parts (is_key_char (to_upper c)) (all is_key_char (map to_upper s)) h in
    (key_char-IsBase32 c a, upper-IsBase32 s b)

upper_one_line : (s : Bytes) → all is_key_char (map to_upper s) ≡ true → All (λ c. c ≢ b'\n') s
upper_one_line [] h = tt
upper_one_line (c ∷ s) h =
    let (a, b) = and_parts (is_key_char (to_upper c)) (all is_key_char (map to_upper s)) h in
    (key_char_line c a, upper_one_line s b)

pattern-IsKeyText : (key : Bytes) → pubkey_pattern (map to_upper key) ≡ true → IsKeyText key
unfolding pubkey_pattern
pattern-IsKeyText key h =
    let (size, chars) =
      and_parts (eqb (length (map to_upper key)) 52) (all is_key_char (map to_upper key)) h in
    record {
      size = sym (length-map to_upper key) ∙ (eqb_iff (length (map to_upper key)) 52).0 size;
      base32 = upper-IsBase32 key chars;
      one_line = upper_one_line key chars;
    }

validate_inv :
    (label key : Bytes) → validate_auth_entry label key ≡ none → IsPlainName label × IsKeyText key
unfolding validate_auth_entry
validate_inv label key e = elim (Bool-cases (client_label_pattern label)) [
  | inl h ↦ elim (Bool-cases (pubkey_pattern (map to_upper key))) [
    | inl k ↦ (pattern-IsPlainName label h, pattern-IsKeyText key k)
    | inr k ↦ absurd (cc (rw (h, k, if◌then◌else◌) at e))
  ]
  | inr h ↦ absurd (cc (rw (h, if◌then◌else◌) at e))
]

-- A file of a client whose name and key are well formed.
pub record IsAuthFile (f : Bytes × Bytes) : Type 0 where
  pub label : Bytes
  pub key : Bytes
  pub plain : IsPlainName label
  pub key_text : IsKeyText key
  pub same : f ≡ auth_file label key

add_entry-IsAuthFile :
    (writes : Bytes → Bool) (label raw : Bytes) (v : Option AuthError) (rest : Report)
    {f : Bytes × Bytes}
    → validate_auth_entry label raw ≡ v
    → (Memᴰ f rest.files → IsAuthFile f)
    → Memᴰ f (add_entry writes label raw v rest).files
    → IsAuthFile f
unfolding add_entry
add_entry-IsAuthFile writes label raw (some x) rest e ih m = ih m
add_entry-IsAuthFile writes label raw none rest e ih m = elim (Bool-cases (writes label)) [
  | inl w ↦
      let (plain, text) = validate_inv label raw e in
      written (record { label = label; key = raw; plain = plain; key_text = text; same = refl }) ih
        (rw (w, if◌then◌else◌) at m)
  | inr w ↦ elim (rw (w, if◌then◌else◌) at m) [ ]
]
  where
    written :
        {f g : Bytes × Bytes} {fs : List (Bytes × Bytes)}
        → IsAuthFile g
        → (Memᴰ f fs → IsAuthFile f)
        → Memᴰ f (g ∷ fs)
        → IsAuthFile f
    written g ih (Memᴰ.head e) = rw e g
    written g ih (Memᴰ.tail m) = ih m

write_entries-IsAuthFile :
    (writes : Bytes → Bool) (clients : List (Bytes × Bytes)) (labels : List Bytes)
    {f : Bytes × Bytes}
    → Memᴰ f (write_entries writes clients labels).files
    → IsAuthFile f
unfolding write_entries
write_entries-IsAuthFile writes clients [] m = elim m [ ]
write_entries-IsAuthFile writes clients (label ∷ labels) m =
    let raw = trim_space (value_at label clients) in
    add_entry-IsAuthFile writes label raw (validate_auth_entry label raw)
      (write_entries writes clients labels) refl (write_entries-IsAuthFile writes clients labels) m

-- Whatever labels and keys the map of clients has, and whatever calls fail, every file that is written
-- has a name of one component without a dot before its suffix, and holds one line with a key of 52
-- characters.
pub write_authorized_clients-IsAuthFile :
    (sort_strings : List Bytes → List Bytes) (creates : Bool) (writes : Bytes → Bool)
    (out_dir : Bytes) (clients : List (Bytes × Bytes)) (f : Bytes × Bytes)
    → Memᴰ f (write_authorized_clients sort_strings creates writes out_dir clients).0
    → IsAuthFile f
unfolding write_authorized_clients
write_authorized_clients-IsAuthFile sort_strings creates writes [] clients f m = elim m [ ]
write_authorized_clients-IsAuthFile sort_strings false writes (c ∷ out_dir) clients f m = elim m [ ]
write_authorized_clients-IsAuthFile sort_strings true writes (c ∷ out_dir) clients f m =
    write_entries-IsAuthFile writes clients
      (sort_strings (map (λ (e : Bytes × Bytes). e.0) clients)) m

module _ (writes : Bytes → Bool) (ok : (label : Bytes) → writes label ≡ true) where
  add_entry_later :
      (label raw : Bytes) (v : Option AuthError) (rest : Report) {f : Bytes × Bytes}
      → Memᴰ f rest.files
      → Memᴰ f (add_entry writes label raw v rest).files
  unfolding add_entry
  add_entry_later label raw (some x) rest m = m
  add_entry_later label raw none rest m = rw (ok label, if◌then◌else◌) (Memᴰ.tail m)

  add_entry_here :
      (label raw : Bytes) (v : Option AuthError) (rest : Report)
      → v ≡ none
      → Memᴰ (auth_file label raw) (add_entry writes label raw v rest).files
  unfolding add_entry
  add_entry_here label raw (some x) rest e = absurd (cc e)
  add_entry_here label raw none rest e = rw (ok label, if◌then◌else◌) (Memᴰ.head refl)

  write_entries_complete :
      (clients : List (Bytes × Bytes)) (labels : List Bytes) {label : Bytes}
      → validate_auth_entry label (trim_space (value_at label clients)) ≡ none
      → Memᴰ label labels
      → Memᴰ
          (auth_file label (trim_space (value_at label clients)))
          (write_entries writes clients labels).files
  unfolding write_entries
  write_entries_complete clients [] e m = elim m [ ]
  write_entries_complete clients (l ∷ labels) e (Memᴰ.head h) =
      let raw = trim_space (value_at l clients) in
      rw h (
        add_entry_here l raw (validate_auth_entry l raw) (write_entries writes clients labels)
          (rw h at e))
  write_entries_complete clients (l ∷ labels) e (Memᴰ.tail m) =
      let raw = trim_space (value_at l clients) in
      add_entry_later l raw (validate_auth_entry l raw) (write_entries writes clients labels)
        (write_entries_complete clients labels e m)

-- When no call fails and sorting only permutes, the file of every well-formed client is written,
-- whatever the other clients are.
pub write_authorized_clients_complete :
    (sort_strings : List Bytes → List Bytes) (writes : Bytes → Bool) (c : ℕ) (out_dir : Bytes)
    (clients : List (Bytes × Bytes)) (label : Bytes)
    → ((xs : List Bytes) → Perm (sort_strings xs) xs)
    → ((l : Bytes) → writes l ≡ true)
    → Mem label (map (λ (e : Bytes × Bytes). e.0) clients)
    → validate_auth_entry label (trim_space (value_at label clients)) ≡ none
    → Mem
        (auth_file label (trim_space (value_at label clients)))
        (write_authorized_clients sort_strings true writes (c ∷ out_dir) clients).0
unfolding write_authorized_clients
write_authorized_clients_complete sort_strings writes c out_dir clients label perm ok m e =
    let labels = map (λ (e : Bytes × Bytes). e.0) clients in
    ∥∥₁_map ((Perm.mem_iff (perm labels)).1 m) (λ (d : Memᴰ label (sort_strings labels)).
      write_entries_complete writes ok clients (sort_strings labels) e d)
