-- ===== src/Tor/Onion/RoundTrip.antt =====
-- The addresses of internal/tor/onion.go, printed and parsed again.
use tor_gateway.Base.{
  ℕ, ◌-◌, ◌*◌, ◌<◌, ◌≡◌, ◌≢◌, refl, sym, ap, ◌∙◌, true, false, [], ◌∷◌, ◌++◌, Bytes, map, length,
  drop, eqb, leb, if◌then◌else◌, bytes_eq, bytes_eq_refl, bytes_eq_sound, All, All-append, All-take,
  length-map, length-append, length-take-le, take_of_length, drop_of_length, drop-drop, Bool-cases,
  inl, inr, arith,
}
use mathlib.Core.List.{map-append}
use tor_gateway.Tor.Base32.{encode_to_string, encode_digit}
use tor_gateway.Tor.Base32.RoundTrip.{
  IsByte, decode_string-encode_to_string, encode_to_string_chars,
}
use tor_gateway.Tor.Onion.{
  OnionAddress, ok, to_lower, to_upper, is_space, trim_left, trim_right, cons_trimmed, trim_space,
  has_suffix, trim_suffix, onion_suffix, onion_checksum, address_body, to_string, parse_raw,
  parse_decoded, parse_stripped, parse_address,
}

-- What is relied on of SHA3-256: 32 bytes come out.
pub record IsDigest (sha3_256 : Bytes → Bytes) : Type 0 where
  pub size : (s : Bytes) → length (sha3_256 s) ≡ 32
  pub bytes : (s : Bytes) → All IsByte (sha3_256 s)

-- An address that holds a key of the right length.
pub record IsAddress (a : OnionAddress) : Type 0 where
  pub size : length a.pub_key ≡ 32
  pub bytes : All IsByte a.pub_key

-- No white space in a text: nothing is trimmed.
abbrev IsInk : ℕ → Type 0
IsInk c = is_space c ≡ false

trim_left_ink : (s : Bytes) → All IsInk s → trim_left s ≡ s
unfolding trim_left
trim_left_ink [] h = refl
trim_left_ink (c ∷ s) (h, hs) = rw h

cons_trimmed_ink : (c : ℕ) (s : Bytes) → IsInk c → cons_trimmed c s ≡ c ∷ s
cons_trimmed_ink c [] h = rw h
cons_trimmed_ink c (d ∷ s) h = refl

trim_right_ink : (s : Bytes) → All IsInk s → trim_right s ≡ s
unfolding trim_right
trim_right_ink [] h = refl
trim_right_ink (c ∷ s) (h, hs) = rw (trim_right_ink s hs) (cons_trimmed_ink c s h)

trim_space_ink : (s : Bytes) → All IsInk s → trim_space s ≡ s
unfolding trim_space
trim_space_ink s h = rw (trim_left_ink s h) (trim_right_ink s h)

trim_suffix-append : (s suffix : Bytes) → trim_suffix (s ++ suffix) suffix ≡ s
unfolding trim_suffix has_suffix
trim_suffix-append s suffix =
    let e : length (s ++ suffix) - length suffix ≡ length s =
      omega (arith, length-append s suffix) in
    let fits : leb (length suffix) (length (s ++ suffix)) ≡ true =
      ground (arith, length-append s suffix) in
    rw (fits, e, drop_of_length (length s) s suffix refl, bytes_eq_refl suffix)
      (take_of_length (length s) s suffix refl)

-- The characters of an encoding, in lower case, are not spaces and keep their case both ways.
record IsPlain (c : ℕ) : Type 0 where
  ink : is_space (to_lower c) ≡ false
  lower : to_lower (to_lower c) ≡ to_lower c
  upper : to_upper (to_lower c) ≡ c

IsPlain-encode_digit : (d : ℕ) → d < 32 → IsPlain (encode_digit d)
IsPlain-encode_digit d h = record { ink = ground arith; lower = ground arith; upper = ground arith }

upper_lower : (s : Bytes) → All IsPlain s → map to_upper (map to_lower s) ≡ s
upper_lower [] h = refl
upper_lower (c ∷ s) (h, hs) = λ i. h.upper i ∷ upper_lower s hs i

lower_lower : (s : Bytes) → All IsPlain s → map to_lower (map to_lower s) ≡ map to_lower s
lower_lower [] h = refl
lower_lower (c ∷ s) (h, hs) = λ i. h.lower i ∷ lower_lower s hs i

IsInk-lower : (s : Bytes) → All IsPlain s → All IsInk (map to_lower s)
IsInk-lower [] h = tt
IsInk-lower (c ∷ s) (h, hs) = (h.ink, IsInk-lower s hs)

bytes_ne : (s t : Bytes) → length s ≢ length t → bytes_eq s t ≡ false
bytes_ne s t h = elim (Bool-cases (bytes_eq s t)) [
  | inl e ↦ absurd (h (ap length (bytes_eq_sound s t e)))
  | inr e ↦ e
]

module _ (sha3_256 : Bytes → Bytes) where
  length-onion_checksum :
      IsDigest sha3_256 → (key : Bytes) → length (onion_checksum sha3_256 key) ≡ 2
  unfolding onion_checksum
  length-onion_checksum digest key = length-take-le 2 _ (omega (arith, digest.size _))

  onion_checksum-IsByte :
      IsDigest sha3_256 → (key : Bytes) → All IsByte (onion_checksum sha3_256 key)
  unfolding onion_checksum
  onion_checksum-IsByte digest key = All-take IsByte 2 _ (digest.bytes _)

  -- The three parts of a body are found again where the parser looks for them.
  parse_raw-address_body :
      IsDigest sha3_256
      → (key : Bytes) → length key ≡ 32
      → parse_raw sha3_256 (address_body sha3_256 key) ≡ ok (record { pub_key = key })
  unfolding parse_raw address_body
  parse_raw-address_body digest key size =
      let sum = onion_checksum sha3_256 key in
      let two = length-onion_checksum digest key in
      let tail : Bytes = sum ++ 3 ∷ [] in
      let len : eqb (length (key ++ tail)) 35 ≡ true =
        ground (arith, length-append key tail, length-append sum (3 ∷ [])) in
      let rest : drop 32 (key ++ tail) ≡ tail = drop_of_length 32 key tail size in
      let version : drop 34 (key ++ tail) ≡ 3 ∷ [] =
        sym (drop-drop 2 32 (key ++ tail)) ∙ ap (drop 2) rest ∙ drop_of_length 2 sum (3 ∷ []) two in
      rw (
        len,
        if◌then◌else◌,
        version,
        take_of_length 32 key tail size,
        rest,
        take_of_length 2 sum (3 ∷ []) two,
        bytes_eq_refl sum,
      )

  length-address_body :
      IsDigest sha3_256
      → (key : Bytes) → length key ≡ 32
      → length (address_body sha3_256 key) ≡ 7 * 5
  unfolding address_body
  length-address_body digest key size = omega (
    arith,
    length-onion_checksum digest key,
    length-append key (onion_checksum sha3_256 key ++ 3 ∷ []),
    length-append (onion_checksum sha3_256 key) (3 ∷ []),
  )

  address_body-IsByte :
      IsDigest sha3_256 → (key : Bytes) → All IsByte key → All IsByte (address_body sha3_256 key)
  unfolding address_body
  address_body-IsByte digest key h = All-append IsByte key _ h (
      All-append IsByte (onion_checksum sha3_256 key) (3 ∷ []) (onion_checksum-IsByte digest key)
        (omega arith))

  parse_stripped-encoding :
      IsDigest sha3_256
      → (key : Bytes) → length key ≡ 32
      → All IsByte key
      → parse_stripped sha3_256 (map to_lower (encode_to_string (address_body sha3_256 key)))
        ≡ ok (record { pub_key = key })
  unfolding parse_stripped parse_decoded
  parse_stripped-encoding digest key size h =
      let body = address_body sha3_256 key in
      let whole = address_body-IsByte digest key h in
      let (len, plain) =
        encode_to_string_chars 7 body IsPlain whole (length-address_body digest key size)
          IsPlain-encode_digit in
      let fits : eqb (length (map to_lower (encode_to_string body))) 56 ≡ true =
        ground (arith, length-map to_lower (encode_to_string body)) in
      rw
        (
          fits,
          if◌then◌else◌,
          upper_lower (encode_to_string body) plain,
          decode_string-encode_to_string body whole,
        )
        (parse_raw-address_body digest key size)

  -- Parsing the text of an address gives the address back.
  pub parse_address-to_string :
      IsDigest sha3_256
      → (a : OnionAddress) → IsAddress a
      → parse_address sha3_256 (to_string sha3_256 a) ≡ ok a
  unfolding parse_address to_string
  parse_address-to_string digest a valid =
      let body = address_body sha3_256 a.pub_key in
      let (len, plain) =
        encode_to_string_chars 7 body IsPlain (address_body-IsByte digest a.pub_key valid.bytes)
          (length-address_body digest a.pub_key valid.size) IsPlain-encode_digit in
      let text = map to_lower (encode_to_string body) in
      let long : eqb (length a.pub_key) 32 ≡ true = rw valid.size in
      let trimmed : trim_space (text ++ onion_suffix) ≡ text ++ onion_suffix =
        trim_space_ink _
          (All-append IsInk text onion_suffix (IsInk-lower _ plain) (ground arith)) in
      let lower : map to_lower (text ++ onion_suffix) ≡ text ++ onion_suffix =
        map-append to_lower text onion_suffix
        ∙ ap (λ (l : Bytes). l ++ onion_suffix) (lower_lower (encode_to_string body) plain) in
      let shorter : bytes_eq text (text ++ onion_suffix) ≡ false =
        bytes_ne text (text ++ onion_suffix) (omega (arith, length-append text onion_suffix)) in
      rw (long, if◌then◌else◌)
        (rw (trimmed, lower, trim_suffix-append text onion_suffix, shorter)
          (parse_stripped-encoding digest a.pub_key valid.size valid.bytes))
