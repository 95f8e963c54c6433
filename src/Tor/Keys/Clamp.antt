-- ===== src/Tor/Keys/Clamp.antt =====
-- The bits that internal/tor/keys.go clamps and checks.
use Prim.Native.Nat.{bit_and, bit_or}
use tor_gateway.Base.{
  ℕ, zero, suc, ◌≢◌, ◌%◌, ◌≤◌, ◌<◌, ◌≡◌, refl, ap, ◌∙◌, ◌↔◌, true, [], ◌∷◌, Bytes, length, eqb,
  eqb_iff, ltb, leb, All, if◌then◌else◌, ◌&&◌, and_parts, Bool-cases, inl, inr, arith,
}
use tor_gateway.Base.Bits.{passes_under, byte_passes}
use tor_gateway.Tor.Base32.RoundTrip.{IsByte}
use tor_gateway.Tor.Onion.{byte_at}
use tor_gateway.Tor.Keys.{
  clamp, clear_low, clear_top, set_second, expand_seed, looks_clamped, set_at, done, seed_size,
}

-- The scalar of an ed25519 key: a multiple of eight below 2^255, with bit 254 set.
pub record IsClamped (body : Bytes) : Type 0 where
  pub size : 64 ≤ length body
  pub low : byte_at 0 body % 8 ≡ 0
  pub high : 64 ≤ byte_at 31 body
  pub below : byte_at 31 body < 128

low_table : passes_under (λ b. eqb (bit_and b 7) (b % 8)) 256 ≡ true
unfolding passes_under
low_table = refl

-- The two top bits are 01 exactly from 64 to 127.
high_table :
    passes_under
      (λ b.
        eqb (if eqb (bit_and b 0xC0) 0x40 then 1 else 0) (if leb 64 b && ltb b 128 then 1 else 0))
      256
    ≡ true
unfolding passes_under
high_table = refl

clamp_low_table : passes_under (λ b. eqb (bit_and b 248 % 8) 0) 256 ≡ true
unfolding passes_under
clamp_low_table = refl

clamp_high_table :
    passes_under (λ b. let c = bit_or (bit_and b 127) 64 in leb 64 c && ltb c 128) 256 ≡ true
unfolding passes_under
clamp_high_table = refl

low_bits : (b : ℕ) → IsByte b → bit_and b 7 ≡ b % 8
low_bits b h = (eqb_iff _ _).0 (byte_passes _ low_table h)

high_bits : (b : ℕ) → IsByte b → (eqb (bit_and b 0xC0) 0x40 ≡ true) ↔ ((64 ≤ b) × (b < 128))
high_bits b h = let e = (eqb_iff _ _).0 (byte_passes _ high_table h) in ground arith

clamp_low : (b : ℕ) → IsByte b → bit_and b 248 % 8 ≡ 0
clamp_low b h = (eqb_iff _ _).0 (byte_passes _ clamp_low_table h)

clamp_high :
    (b : ℕ) → IsByte b → (64 ≤ bit_or (bit_and b 127) 64) × (bit_or (bit_and b 127) 64 < 128)
clamp_high b h =
    let c = bit_or (bit_and b 127) 64 in
    let (p, q) = and_parts (leb 64 c) (ltb c 128) (byte_passes _ clamp_high_table h) in
    (ground arith, ground arith)

byte_at-IsByte : (i : ℕ) (s : Bytes) → All IsByte s → IsByte (byte_at i s)
byte_at-IsByte zero [] h = omega arith
byte_at-IsByte zero (b ∷ s) h = h.0
byte_at-IsByte (suc i) [] h = omega arith
byte_at-IsByte (suc i) (b ∷ s) h = byte_at-IsByte i s h.1

byte_at-set_at_self :
    (i : ℕ) (f : ℕ → ℕ) (s : Bytes) → i < length s → byte_at i (set_at i f s) ≡ f (byte_at i s)
byte_at-set_at_self i f [] h = elim h [ ]
byte_at-set_at_self zero f (b ∷ s) h = refl
byte_at-set_at_self (suc i) f (b ∷ s) h = byte_at-set_at_self i f s (omega arith)

byte_at-set_at_ne :
    (i j : ℕ) (f : ℕ → ℕ) (s : Bytes) → i ≢ j → byte_at j (set_at i f s) ≡ byte_at j s
byte_at-set_at_ne i j f [] h = refl
byte_at-set_at_ne zero zero f (b ∷ s) h = absurd (h refl)
byte_at-set_at_ne zero (suc j) f (b ∷ s) h = refl
byte_at-set_at_ne (suc i) zero f (b ∷ s) h = refl
byte_at-set_at_ne (suc i) (suc j) f (b ∷ s) h = byte_at-set_at_ne i j f s (λ e. h (ap suc e))

length-set_at : (i : ℕ) (f : ℕ → ℕ) (s : Bytes) → length (set_at i f s) ≡ length s
length-set_at i f [] = refl
length-set_at zero f (b ∷ s) = refl
length-set_at (suc i) f (b ∷ s) = ap suc (length-set_at i f s)

-- The check of a file accepts exactly the clamped keys.
pub looks_clamped_iff :
    (body : Bytes) → All IsByte body → (looks_clamped body ≡ true) ↔ IsClamped body
unfolding looks_clamped
looks_clamped_iff body h =
    let low = low_bits (byte_at 0 body) (byte_at-IsByte 0 body h) in
    let high = high_bits (byte_at 31 body) (byte_at-IsByte 31 body h) in
    (
      λ e. ground arith,
      λ c. let l = c.low in let k = c.size in ground (arith, high.1 (c.high, c.below)),
    )

length-clamp : (h : Bytes) → length (clamp h) ≡ length h
unfolding clamp
length-clamp h =
    let low = set_at 0 clear_low h in
    length-set_at 31 set_second (set_at 31 clear_top low)
    ∙ length-set_at 31 clear_top low
    ∙ length-set_at 0 clear_low h

byte_at-clamp_low : (h : Bytes) → 0 < length h → byte_at 0 (clamp h) ≡ bit_and (byte_at 0 h) 248
unfolding clamp
byte_at-clamp_low h size =
    let low = set_at 0 clear_low h in
    byte_at-set_at_ne 31 0 set_second (set_at 31 clear_top low) (omega arith)
    ∙ byte_at-set_at_ne 31 0 clear_top low (omega arith)
    ∙ byte_at-set_at_self 0 clear_low h size

byte_at-clamp_high :
    (h : Bytes) → 31 < length h → byte_at 31 (clamp h) ≡ bit_or (bit_and (byte_at 31 h) 127) 64
unfolding clamp
byte_at-clamp_high h size =
    let low = set_at 0 clear_low h in
    let long : 31 < length low = omega (arith, length-set_at 0 clear_low h) in
    byte_at-set_at_self 31 set_second (set_at 31 clear_top low)
      (omega (arith, length-set_at 31 clear_top low))
    ∙ ap set_second (byte_at-set_at_self 31 clear_top low long)
    ∙ ap (λ b. set_second (clear_top b)) (byte_at-set_at_ne 0 31 clear_low h (omega arith))

-- Clamping 64 bytes gives a clamped key.
pub clamp-IsClamped : (h : Bytes) → length h ≡ 64 → All IsByte h → IsClamped (clamp h)
clamp-IsClamped h size bytes =
    let low = byte_at-clamp_low h (omega arith) in
    let high = byte_at-clamp_high h (omega arith) in
    let (most, least) = clamp_high (byte_at 31 h) (byte_at-IsByte 31 h bytes) in
    record {
      size = omega (arith, length-clamp h);
      low = rw low (clamp_low (byte_at 0 h) (byte_at-IsByte 0 h bytes));
      high = rw high most;
      below = rw high least;
    }

-- A seed expands to a clamped key of 64 bytes, for a digest of 64 bytes.
pub expand_seed-IsClamped :
    (sha512 : Bytes → Bytes) (seed expanded : Bytes)
    → length (sha512 seed) ≡ 64
    → All IsByte (sha512 seed)
    → expand_seed sha512 seed ≡ done expanded
    → IsClamped expanded × (length expanded ≡ 64)
unfolding expand_seed
expand_seed-IsClamped sha512 seed expanded size bytes e =
    elim (Bool-cases (eqb (length seed) seed_size)) [
      | inl h ↦
          let same : clamp (sha512 seed) ≡ expanded = cc (rw (h, if◌then◌else◌) at e) in
          rw (← same) (clamp-IsClamped (sha512 seed) size bytes, length-clamp (sha512 seed) ∙ size)
      | inr h ↦ absurd (cc (rw (h, if◌then◌else◌) at e))
    ]
