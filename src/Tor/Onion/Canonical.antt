-- ===== src/Tor/Onion/Canonical.antt =====
-- What internal/tor/onion.go accepts as an address: only the canonical text, up to case and white
-- space at the ends.
use tor_gateway.Base.{
  ℕ, ◌-◌, ◌≡◌, refl, sym, ap, ◌∙◌, true, false, Option, none, some, [], ◌∷◌, ◌++◌, Bytes, map,
  length, take, drop, eqb, eqb_iff, leb, if◌then◌else◌, bytes_eq, bytes_eq_refl, bytes_eq_sound,
  All, All-take, All-map, length-map, length-drop, length-take-le, drop-drop, take-append-drop,
  Bool-cases, and_parts, inl, inr, arith,
}
use tor_gateway.Tor.Base32.{encode_to_string, decode_string}
use tor_gateway.Tor.Base32.RoundTrip.{IsByte, encode_to_string-decode_string}
use tor_gateway.Tor.Onion.{
  OnionAddress, ok, to_lower, to_upper, trim_space, has_suffix, trim_suffix, onion_suffix, byte_at,
  first_byte, onion_checksum, address_body, to_string, parse_raw, parse_decoded, parse_stripped,
  parse_address,
}
use tor_gateway.Tor.Onion.RoundTrip.{IsAddress}

-- Where the suffix was there, it can be put back.
trim_suffix-restored :
    (s suffix : Bytes)
    → bytes_eq (trim_suffix s suffix) s ≡ false
    → trim_suffix s suffix ++ suffix ≡ s
unfolding trim_suffix has_suffix
trim_suffix-restored s suffix h = elim (Bool-cases (has_suffix s suffix)) [
  | inl e ↦
      let n = length s - length suffix in
      let (fits, same) = and_parts (leb (length suffix) (length s)) _ e in
      rw (e, if◌then◌else◌)
        (ap (λ (l : Bytes). take n s ++ l) (sym (bytes_eq_sound (drop n s) suffix same))
          ∙ take-append-drop n s)
  | inr e ↦ absurd (cc (rw (e, if◌then◌else◌, bytes_eq_refl s) at h))
]

one_byte : (s : Bytes) (v : ℕ) → length s ≡ 1 → first_byte s ≡ v → s ≡ v ∷ []
one_byte [] v h e = absurd (omega arith)
one_byte (b ∷ []) v h e = rw e
one_byte (b ∷ c ∷ s) v h e = absurd (omega arith)

-- Lower case is undone and made again.
lower_upper : (c : ℕ) → to_lower (to_upper (to_lower c)) ≡ to_lower c
lower_upper c = ground arith

abbrev IsLower : ℕ → Type 0
IsLower c = to_lower (to_upper c) ≡ c

map-lower_upper : (s : Bytes) → All IsLower s → map to_lower (map to_upper s) ≡ s
map-lower_upper [] h = refl
map-lower_upper (c ∷ s) (h, hs) = λ i. h i ∷ map-lower_upper s hs i

All-always : (s : Bytes) → All (λ (c : ℕ). IsLower (to_lower c)) s
All-always [] = tt
All-always (c ∷ s) = (lower_upper c, All-always s)

trim_suffix-All : (P : ℕ → Type 0) (s suffix : Bytes) → All P s → All P (trim_suffix s suffix)
unfolding trim_suffix
trim_suffix-All P s suffix h = elim (Bool-cases (has_suffix s suffix)) [
  | inl e ↦ rw (e, if◌then◌else◌) (All-take P (length s - length suffix) s h)
  | inr e ↦ rw (e, if◌then◌else◌) h
]

module _ (sha3_256 : Bytes → Bytes) where
  record IsWhole (raw : Bytes) (a : OnionAddress) : Type 0 where
    size : length raw ≡ 35
    body : address_body sha3_256 a.pub_key ≡ raw
    key_size : length a.pub_key ≡ 32
    key : a.pub_key ≡ take 32 raw

  parse_raw-inv : (raw : Bytes) (a : OnionAddress) → parse_raw sha3_256 raw ≡ ok a → IsWhole raw a
  unfolding parse_raw address_body
  parse_raw-inv raw a e = elim (Bool-cases (eqb (length raw) 35)) [
    | inr short ↦ absurd (cc (rw (short, if◌then◌else◌) at e))
    | inl long ↦ elim (Bool-cases (eqb (byte_at 34 raw) 3)) [
      | inr other ↦ absurd (cc (rw (long, if◌then◌else◌, other) at e))
      | inl version ↦
          elim (Bool-cases
            (bytes_eq (onion_checksum sha3_256 (take 32 raw)) (take 2 (drop 32 raw)))) [
              | inr bad ↦ absurd (cc (rw (long, if◌then◌else◌, version, bad) at e))
              | inl good ↦
                  whole ((eqb_iff (length raw) 35).0 long) ((eqb_iff (byte_at 34 raw) 3).0 version)
                    (bytes_eq_sound _ _ good) (rw (long, if◌then◌else◌, version, good) at e)
            ]
    ]
  ]
    where
      whole :
          length raw ≡ 35
          → byte_at 34 raw ≡ 3
          → onion_checksum sha3_256 (take 32 raw) ≡ take 2 (drop 32 raw)
          → ok (record { pub_key = take 32 raw }) ≡ ok a
          → IsWhole raw a
      whole long version good found =
          let key : a.pub_key ≡ take 32 raw = cc in
          let last : drop 34 raw ≡ 3 ∷ [] =
            one_byte (drop 34 raw) 3 (omega (arith, length-drop 34 raw)) version in
          record {
            size = long;
            body =
                rw (key, good)
                  (ap (λ (l : Bytes). take 32 raw ++ (take 2 (drop 32 raw) ++ l))
                      (sym (drop-drop 2 32 raw ∙ last))
                    ∙ ap (λ (l : Bytes). take 32 raw ++ l) (take-append-drop 2 (drop 32 raw))
                    ∙ take-append-drop 32 raw);
            key_size = rw key (length-take-le 32 raw (omega arith));
            key = key;
          }

  parse_decoded-inv :
      (o : Option Bytes) (a : OnionAddress)
      → parse_decoded sha3_256 o ≡ ok a
      → (raw : Bytes) × (o ≡ some raw) × IsWhole raw a
  unfolding parse_decoded
  parse_decoded-inv none a e = cc
  parse_decoded-inv (some raw) a e = (raw, refl, parse_raw-inv raw a e)

  -- The stripped text is the encoding of the address's body.
  parse_stripped-inv :
      (s : Bytes) (a : OnionAddress)
      → All IsLower s
      → parse_stripped sha3_256 s ≡ ok a
      → (map to_lower (encode_to_string (address_body sha3_256 a.pub_key)) ≡ s) × IsAddress a
  unfolding parse_stripped
  parse_stripped-inv s a low e = elim (Bool-cases (eqb (length s) 56)) [
    | inr short ↦ absurd (cc (rw (short, if◌then◌else◌) at e))
    | inl long ↦
        let (raw, decoded, w) =
          parse_decoded-inv (decode_string (map to_upper s)) a (rw (long, if◌then◌else◌) at e) in
        let (encoded, bytes) =
          encode_to_string-decode_string 7 (map to_upper s) raw decoded
            (length-map to_upper s ∙ (eqb_iff (length s) 56).0 long) w.size in
        (
          ap (λ (l : Bytes). map to_lower (encode_to_string l)) w.body
              ∙ ap (map to_lower) encoded
              ∙ map-lower_upper s low,
          record { size = w.key_size; bytes = rw w.key (All-take IsByte 32 raw bytes) },
        )
  ]

  -- An accepted text is that of its address, but for the case of its letters and white space at its
  -- ends, and the address holds a key of 32 bytes.
  pub parse_address-canonical :
      (addr : Bytes) (a : OnionAddress)
      → parse_address sha3_256 addr ≡ ok a
      → (to_string sha3_256 a ≡ map to_lower (trim_space addr)) × IsAddress a
  unfolding parse_address to_string
  parse_address-canonical addr a e =
      let lower = map to_lower (trim_space addr) in
      let stripped = trim_suffix lower onion_suffix in
      let low : All IsLower stripped =
        trim_suffix-All IsLower lower onion_suffix
          (All-map IsLower to_lower (trim_space addr) (All-always (trim_space addr))) in
      elim (Bool-cases (bytes_eq stripped lower)) [
        | inl same ↦ absurd (cc (rw (same, if◌then◌else◌) at e))
        | inr cut ↦
            let (text, valid) = parse_stripped-inv stripped a low (rw (cut, if◌then◌else◌) at e) in
            let long : eqb (length a.pub_key) 32 ≡ true = rw valid.size in
            (
              rw (long, if◌then◌else◌)
                  (ap (λ (l : Bytes). l ++ onion_suffix) text
                    ∙ trim_suffix-restored lower onion_suffix cut),
              valid,
            )
      ]
