-- ===== src/Tor/Keys/RoundTrip.antt =====
-- The key files of internal/tor/keys.go, written and read again.
use tor_gateway.Base.{
  ◌≡◌, refl, sym, ap, ◌∙◌, ◌↔◌, true, ◌++◌, Bytes, length, length-append, length-drop, take, drop,
  take_of_length, drop_of_length, take-append-drop, eqb, eqb_iff, if◌then◌else◌, bytes_eq,
  bytes_eq_refl, bytes_eq_sound, Bool-cases, inl, inr, arith,
}
use tor_gateway.Tor.Keys.{
  KeyPair, Result, done, error, ◌>>=◌, header, header_len, tag_secret, tag_public, zeros,
  secret_key_file, public_key_file, parse_secret_key, parse_public_key, parse_files, looks_clamped,
  secret_body, public_body, secret_key_file_size, public_key_file_size,
}

-- The header with the tag filled up by zeros.
abbrev pub secret_header_bytes : Bytes
secret_header_bytes = tag_secret ++ zeros 3

abbrev pub public_header_bytes : Bytes
public_header_bytes = tag_public ++ zeros 3

header-secret : header tag_secret ≡ done secret_header_bytes
unfolding header
header-secret = refl

header-public : header tag_public ≡ done public_header_bytes
unfolding header
header-public = refl

secret_key_file_lem : (k : KeyPair) → secret_key_file k ≡ done (secret_header_bytes ++ k.expanded)
unfolding secret_key_file
secret_key_file_lem k = refl

public_key_file_lem : (k : KeyPair) → public_key_file k ≡ done (public_header_bytes ++ k.public_key)
unfolding public_key_file
public_key_file_lem k = refl

-- A key whose parts have the sizes of the file format, and that is clamped.
pub record IsKeyPair (k : KeyPair) : Type 0 where
  pub public_size : length k.public_key ≡ 32
  pub expanded_size : length k.expanded ≡ 64
  pub clamped : looks_clamped k.expanded ≡ true

secret_body-append :
    (h expanded : Bytes)
    → length h ≡ header_len
    → looks_clamped expanded ≡ true
    → secret_body (h ++ expanded) h ≡ done expanded
unfolding secret_body
secret_body-append h expanded size clamped = rw (
  take_of_length header_len h expanded size,
  bytes_eq_refl h,
  drop_of_length header_len h expanded size,
  clamped,
)

public_body-append : (h key : Bytes) → length h ≡ header_len → public_body (h ++ key) h ≡ done key
unfolding public_body
public_body-append h key size =
    rw (take_of_length header_len h key size, bytes_eq_refl h, drop_of_length header_len h key size)

parse_secret-file :
    (expanded : Bytes)
    → length expanded ≡ 64
    → looks_clamped expanded ≡ true
    → parse_secret_key (secret_header_bytes ++ expanded) ≡ done expanded
unfolding parse_secret_key
parse_secret-file expanded size clamped =
    let whole : eqb (length (secret_header_bytes ++ expanded)) secret_key_file_size ≡ true =
      ground arith in
    rw (whole, if◌then◌else◌) (secret_body-append secret_header_bytes expanded refl clamped)

parse_public-file :
    (key : Bytes) → length key ≡ 32 → parse_public_key (public_header_bytes ++ key) ≡ done key
unfolding parse_public_key
parse_public-file key size =
    let whole : eqb (length (public_header_bytes ++ key)) public_key_file_size ≡ true =
      ground arith in
    rw (whole, if◌then◌else◌) (public_body-append public_header_bytes key refl)

-- The files of a key parse to the key.
pub parse_files-key_files :
    (k : KeyPair)
    → IsKeyPair k
    → (secret : Bytes) × (public : Bytes) × (secret_key_file k ≡ done secret)
      × (public_key_file k ≡ done public)
      × (parse_files secret public ≡ done k)
unfolding parse_files
parse_files-key_files k valid = (
  secret_header_bytes ++ k.expanded,
  public_header_bytes ++ k.public_key,
  secret_key_file_lem k,
  public_key_file_lem k,
  rw (
    parse_secret-file k.expanded valid.expanded_size valid.clamped,
    parse_public-file k.public_key valid.public_size,
  ),
)

secret_body-inv :
    (contents h expanded : Bytes)
    → secret_body contents h ≡ done expanded
    → (contents ≡ h ++ expanded)
      × (expanded ≡ drop header_len contents)
      × (looks_clamped expanded ≡ true)
unfolding secret_body
secret_body-inv contents h expanded e = elim (Bool-cases (bytes_eq (take header_len contents) h)) [
  | inr bad ↦ absurd (cc (rw (bad, if◌then◌else◌) at e))
  | inl good ↦ elim (Bool-cases (looks_clamped (drop header_len contents))) [
    | inr bad ↦ absurd (cc (rw (good, if◌then◌else◌, bad) at e))
    | inl clamped ↦
        let same : drop header_len contents ≡ expanded =
          cc (rw (good, if◌then◌else◌, clamped) at e) in
        (
          sym (take-append-drop header_len contents)
              ∙ ap (λ (l : Bytes). l ++ drop header_len contents) (bytes_eq_sound _ h good)
              ∙ ap (λ (l : Bytes). h ++ l) same,
          sym same,
          rw (← same) clamped,
        )
  ]
]

public_body-inv : (contents h key : Bytes) → public_body contents h ≡ done key → contents ≡ h ++ key
unfolding public_body
public_body-inv contents h key e = elim (Bool-cases (bytes_eq (take header_len contents) h)) [
  | inr bad ↦ absurd (cc (rw (bad, if◌then◌else◌) at e))
  | inl good ↦
      let same : drop header_len contents ≡ key = cc (rw (good, if◌then◌else◌) at e) in
      sym (take-append-drop header_len contents)
      ∙ ap (λ (l : Bytes). l ++ drop header_len contents) (bytes_eq_sound _ h good)
      ∙ ap (λ (l : Bytes). h ++ l) same
]

pub parse_secret_key-inv :
    (contents expanded : Bytes)
    → parse_secret_key contents ≡ done expanded
    → (contents ≡ secret_header_bytes ++ expanded)
      × (length expanded ≡ 64)
      × (looks_clamped expanded ≡ true)
unfolding parse_secret_key
parse_secret_key-inv contents expanded e =
    elim (Bool-cases (eqb (length contents) secret_key_file_size)) [
      | inr bad ↦ absurd (cc (rw (bad, if◌then◌else◌) at e))
      | inl whole ↦
          let (split, rest, clamped) =
            secret_body-inv contents secret_header_bytes expanded
              (rw (whole, if◌then◌else◌) at e) in
          let size = (eqb_iff (length contents) secret_key_file_size).0 whole in
          (split, omega (arith, ap length rest, length-drop header_len contents), clamped)
    ]

pub parse_public_key-inv :
    (contents key : Bytes)
    → parse_public_key contents ≡ done key
    → (contents ≡ public_header_bytes ++ key) × (length key ≡ 32)
unfolding parse_public_key
parse_public_key-inv contents key e =
    elim (Bool-cases (eqb (length contents) public_key_file_size)) [
      | inr bad ↦ absurd (cc (rw (bad, if◌then◌else◌) at e))
      | inl whole ↦
          let split =
            public_body-inv contents public_header_bytes key (rw (whole, if◌then◌else◌) at e) in
          let size = (eqb_iff (length contents) public_key_file_size).0 whole in
          (split, omega (arith, ap length split, length-append public_header_bytes key))
    ]

pub parse_files-parts :
    (secret public : Bytes) (k : KeyPair)
    → parse_files secret public ≡ done k
    → (parse_secret_key secret ≡ done k.expanded) × (parse_public_key public ≡ done k.public_key)
unfolding parse_files
parse_files-parts secret public k e =
    by_parts (parse_secret_key secret) (parse_public_key public) refl refl e
  where
    by_parts :
        (s p : Result Bytes)
        → parse_secret_key secret ≡ s
        → parse_public_key public ≡ p
        → (s >>= λ expanded. p >>= λ key. done (record { public_key = key; expanded = expanded }))
          ≡ done k
        → (parse_secret_key secret ≡ done k.expanded)
          × (parse_public_key public ≡ done k.public_key)
    by_parts (error x) p es ep q = cc
    by_parts (done s) (error x) es ep q = cc
    by_parts (done s) (done p) es ep q = (cc, cc)

-- Two files parse to a key exactly when they are the files of the key and the key is well formed.
pub parse_files_iff :
    (secret public : Bytes) (k : KeyPair)
    → (parse_files secret public ≡ done k)
      ↔ ((secret_key_file k ≡ done secret) × (public_key_file k ≡ done public) × IsKeyPair k)
parse_files_iff secret public k = (to, from)
  where
    to :
        parse_files secret public ≡ done k
        → (secret_key_file k ≡ done secret) × (public_key_file k ≡ done public) × IsKeyPair k
    to e =
        let (s, p) = parse_files-parts secret public k e in
        let (split, size, clamped) = parse_secret_key-inv secret k.expanded s in
        let (split', size') = parse_public_key-inv public k.public_key p in
        (
          secret_key_file_lem k ∙ ap done (sym split),
          public_key_file_lem k ∙ ap done (sym split'),
          record { public_size = size'; expanded_size = size; clamped = clamped },
        )

    from :
        (secret_key_file k ≡ done secret) × (public_key_file k ≡ done public) × IsKeyPair k
        → parse_files secret public ≡ done k
    from (s, p, valid) =
        let (secret', public', es, ep, parsed) = parse_files-key_files k valid in
        let same : secret' ≡ secret = cc in
        let same' : public' ≡ public = cc in rw (← same, ← same') parsed
