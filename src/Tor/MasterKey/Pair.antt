-- ===== src/Tor/MasterKey/Pair.antt =====
-- Which Secrets internal/tor/master_key.go accepts.
use tor_gateway.Base.{
  ◌≡◌, refl, sym, ap, ◌∙◌, ◌↔◌, inl, inr, String, false, Option, none, some, List, Bytes, length,
  take, drop, eqb, if◌then◌else◌, bytes_eq, bytes_eq_iff, Bool-cases, drop_of_length, arith,
}
use tor_gateway.Api.{data_at}
use tor_gateway.Tor.Keys.{KeyPair, Result, header_len, parse_files}
use tor_gateway.Tor.Keys.RoundTrip.{
  parse_files-parts, parse_secret_key-inv, parse_public_key-inv, public_header_bytes,
}
use tor_gateway.Tor.MasterKey.{MasterResult, same_public, forms_pair, validate_master_key_secret}

record IsShaped (secret public : Bytes) (kp : KeyPair) : Type 0 where
  secret_size : eqb (length secret) 0 ≡ false
  public_size : eqb (length public) 0 ≡ false
  body : drop header_len public ≡ kp.public_key

parse_files-IsShaped :
    (secret public : Bytes) (kp : KeyPair)
    → parse_files secret public ≡ Result.done kp
    → IsShaped secret public kp
parse_files-IsShaped secret public kp e =
    let (s, p) = parse_files-parts secret public kp e in
    let (split, size, clamped) = parse_secret_key-inv secret kp.expanded s in
    let (split', size') = parse_public_key-inv public kp.public_key p in
    record {
      secret_size = rw split (ground arith);
      public_size = rw split' (ground arith);
      body = rw split' (drop_of_length header_len public_header_bytes kp.public_key refl);
    }

module _ (derive : Bytes → Option Bytes) where
  -- The two files parse to the key, and the curve takes its first half to its public key.
  pub record IsMasterKey (contents : List (String × Bytes)) (kp : KeyPair) : Type 0 where
    pub parsed :
        parse_files
          (data_at "hs_ed25519_secret_key" contents)
          (data_at "hs_ed25519_public_key" contents)
        ≡ Result.done kp
    pub derived : derive (take 32 kp.expanded) ≡ some kp.public_key

  same_public_iff :
      (kp k : KeyPair) (public_bytes : Bytes) (o : Option Bytes)
      → (same_public derive kp public_bytes o ≡ MasterResult.valid k)
        ↔ ((kp ≡ k) × (o ≡ some (drop header_len public_bytes)))
  unfolding same_public
  same_public_iff kp k public_bytes none = (λ e. absurd (cc e), λ p. absurd (cc p.1))
  same_public_iff kp k public_bytes (some d) =
      let body = drop header_len public_bytes in
      (
        λ e. elim (Bool-cases (bytes_eq d body)) [
          | inl h ↦
              let same : kp ≡ k = cc (rw (h, if◌then◌else◌) at e) in
              (same, ap some ((bytes_eq_iff d body).0 h))
          | inr h ↦ absurd (cc (rw (h, if◌then◌else◌) at e))
        ],
        λ p.
            let same : d ≡ body = cc p.1 in
            rw ((bytes_eq_iff d body).1 same, if◌then◌else◌) (ap MasterResult.valid p.0),
      )

  -- Files that parse are not empty.
  validate-parsed :
      (contents : List (String × Bytes)) (kp : KeyPair)
      → parse_files
          (data_at "hs_ed25519_secret_key" contents)
          (data_at "hs_ed25519_public_key" contents)
        ≡ Result.done kp
      → validate_master_key_secret derive contents
        ≡ same_public derive kp
            (data_at "hs_ed25519_public_key" contents)
            (derive (take 32 kp.expanded))
  unfolding validate_master_key_secret forms_pair
  validate-parsed contents kp e =
      let shape =
        parse_files-IsShaped (data_at "hs_ed25519_secret_key" contents)
          (data_at "hs_ed25519_public_key" contents) kp e in
      rw (shape.secret_size, shape.public_size, e, if◌then◌else◌) refl

  forms_pair_inv :
      (public_bytes : Bytes) (r : Result KeyPair) (kp : KeyPair)
      → forms_pair derive public_bytes r ≡ MasterResult.valid kp
      → r ≡ Result.done kp
  unfolding forms_pair
  forms_pair_inv public_bytes (Result.error x) kp e = absurd (cc e)
  forms_pair_inv public_bytes (Result.done k) kp e =
      ap Result.done ((same_public_iff k kp public_bytes (derive (take 32 k.expanded))).0 e).0

  validate_inv :
      (contents : List (String × Bytes)) (kp : KeyPair)
      → validate_master_key_secret derive contents ≡ MasterResult.valid kp
      → parse_files
          (data_at "hs_ed25519_secret_key" contents)
          (data_at "hs_ed25519_public_key" contents)
        ≡ Result.done kp
  unfolding validate_master_key_secret
  validate_inv contents kp e =
      let secret = data_at "hs_ed25519_secret_key" contents in
      let public = data_at "hs_ed25519_public_key" contents in
      elim (Bool-cases (eqb (length secret) 0)) [
        | inl h ↦ absurd (cc (rw (h, if◌then◌else◌) at e))
        | inr h ↦ elim (Bool-cases (eqb (length public) 0)) [
          | inl h' ↦ absurd (cc (rw (h, h', if◌then◌else◌) at e))
          | inr h' ↦
              forms_pair_inv public (parse_files secret public) kp (rw (h, h', if◌then◌else◌) at e)
        ]
      ]

  -- A Secret is accepted, with a key, exactly when its two files parse to the key and the curve takes
  -- the first half of the expanded key to the public key.
  pub validate_master_key_secret_iff :
      (contents : List (String × Bytes)) (kp : KeyPair)
      → (validate_master_key_secret derive contents ≡ MasterResult.valid kp)
        ↔ IsMasterKey contents kp
  validate_master_key_secret_iff contents kp =
      let public = data_at "hs_ed25519_public_key" contents in
      let secret = data_at "hs_ed25519_secret_key" contents in
      let checked = same_public_iff kp kp public (derive (take 32 kp.expanded)) in
      (
        λ e.
            let parsed = validate_inv contents kp e in
            let d = (checked.0 (sym (validate-parsed contents kp parsed) ∙ e)).1 in
            record {
              parsed = parsed;
              derived = d ∙ ap some (parse_files-IsShaped secret public kp parsed).body;
            },
        λ m.
            validate-parsed contents kp m.parsed
            ∙ checked.1 (
              refl,
              m.derived ∙ ap some (sym (parse_files-IsShaped secret public kp m.parsed).body),
            ),
      )
