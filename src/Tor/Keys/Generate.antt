-- ===== src/Tor/Keys/Generate.antt =====
-- The keys that GenerateKeyPair of internal/tor/keys.go makes.
use tor_gateway.Base.{
  ℕ, zero, suc, ◌≡◌, refl, ap, true, Option, none, some, [], ◌∷◌, Bytes, length, take, eqb, ltb,
  All, if◌then◌else◌, Bool-cases, inl, inr, arith,
}
use tor_gateway.Base.Bits.{passes_under, byte_passes}
use tor_gateway.Tor.Base32.RoundTrip.{IsByte}
use tor_gateway.Tor.Keys.{
  KeyPair, Result, done, error, ◌>>=◌, clamp, clear_low, clear_top, set_second, set_at, expand_seed,
  looks_clamped, generate_key_pair, seed_size,
}
use tor_gateway.Tor.Keys.Clamp.{looks_clamped_iff, clamp-IsClamped, expand_seed-IsClamped}
use tor_gateway.Tor.Keys.RoundTrip.{IsKeyPair}

-- What is documented of SHA-512: a digest is 64 bytes.
pub record IsSha512 (sha512 : Bytes → Bytes) : Type 0 where
  pub size : (s : Bytes) → length (sha512 s) ≡ 64
  pub bytes : (s : Bytes) → All IsByte (sha512 s)

-- What is documented of ed25519.GenerateKey: a public key is 32 bytes.
abbrev pub IsGenerated : Option (Bytes × Bytes) → Type 0
IsGenerated none = Unit
IsGenerated (some (key, priv)) = length key ≡ 32

set_at-IsByte :
    (i : ℕ) (f : ℕ → ℕ) (s : Bytes)
    → ((b : ℕ) → IsByte b → IsByte (f b))
    → All IsByte s
    → All IsByte (set_at i f s)
set_at-IsByte i f [] keeps h = tt
set_at-IsByte zero f (b ∷ s) keeps h = (keeps b h.0, h.1)
set_at-IsByte (suc i) f (b ∷ s) keeps h = (h.0, set_at-IsByte i f s keeps h.1)

low_byte : passes_under (λ b. ltb (clear_low b) 256) 256 ≡ true
unfolding passes_under
low_byte = refl

top_byte : passes_under (λ b. ltb (clear_top b) 256) 256 ≡ true
unfolding passes_under
top_byte = refl

second_byte : passes_under (λ b. ltb (set_second b) 256) 256 ≡ true
unfolding passes_under
second_byte = refl

IsByte-of : (n : ℕ) → ltb n 256 ≡ true → IsByte n
IsByte-of n h = ground arith

clamp-IsByte : (h : Bytes) → All IsByte h → All IsByte (clamp h)
unfolding clamp
clamp-IsByte h bytes =
    set_at-IsByte 31 set_second (set_at 31 clear_top (set_at 0 clear_low h))
      (λ b k. IsByte-of (set_second b) (byte_passes (λ b. ltb (set_second b) 256) second_byte k))
      (set_at-IsByte 31 clear_top (set_at 0 clear_low h)
        (λ b k. IsByte-of (clear_top b) (byte_passes (λ b. ltb (clear_top b) 256) top_byte k))
        (set_at-IsByte 0 clear_low h
          (λ b k. IsByte-of (clear_low b) (byte_passes (λ b. ltb (clear_low b) 256) low_byte k))
          bytes))

expand_seed-looks_clamped :
    (sha512 : Bytes → Bytes) (seed expanded : Bytes)
    → IsSha512 sha512
    → expand_seed sha512 seed ≡ done expanded
    → looks_clamped expanded ≡ true
unfolding expand_seed
expand_seed-looks_clamped sha512 seed expanded sha e =
    elim (Bool-cases (eqb (length seed) seed_size)) [
      | inl h ↦
          let same : clamp (sha512 seed) ≡ expanded = cc (rw (h, if◌then◌else◌) at e) in
          rw (← same) (
            (looks_clamped_iff (clamp (sha512 seed))
                (clamp-IsByte (sha512 seed) (sha.bytes seed))).1
              (clamp-IsClamped (sha512 seed) (sha.size seed) (sha.bytes seed)))
      | inr h ↦ absurd (cc (rw (h, if◌then◌else◌) at e))
    ]

key_of_expanded :
    (key : Bytes) (r : Result Bytes) (k : KeyPair)
    → (r >>= λ expanded. done (record { public_key = key; expanded = expanded })) ≡ done k
    → (r ≡ done k.expanded) × (key ≡ k.public_key)
key_of_expanded key (done x) k e =
    let same : record { public_key = key; expanded = x } ≡ k = cc e in
    (ap (λ (p : KeyPair). done p.expanded) same, ap (λ (p : KeyPair). p.public_key) same)
key_of_expanded key (error x) k e = absurd (cc e)

-- A generated key has the sizes and the clamped scalar of the file format.
pub generate_key_pair-IsKeyPair :
    (sha512 : Bytes → Bytes) (generated : Option (Bytes × Bytes)) (k : KeyPair)
    → IsSha512 sha512
    → IsGenerated generated
    → generate_key_pair sha512 generated ≡ done k
    → IsKeyPair k
unfolding generate_key_pair
generate_key_pair-IsKeyPair sha512 none k sha gen e = absurd (cc e)
generate_key_pair-IsKeyPair sha512 (some (key, priv)) k sha gen e =
    let seed = take seed_size priv in
    let (expanded, same) = key_of_expanded key (expand_seed sha512 seed) k e in
    let (clamped, size) =
      expand_seed-IsClamped sha512 seed k.expanded (sha.size seed) (sha.bytes seed) expanded in
    record {
      public_size = rw (← same) gen;
      expanded_size = size;
      clamped = expand_seed-looks_clamped sha512 seed k.expanded sha expanded;
    }
