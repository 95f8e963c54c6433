-- ===== src/Tor/Onion.antt =====
-- internal/tor/onion.go: v3 onion addresses. `crypto/sha3` is a parameter, as its digest. Text is
-- ASCII, the part of Go's tables for case and white space that is modelled.
pub mod RoundTrip
pub mod Canonical
use tor_gateway.Base.{
  ℕ, ◌+◌, ◌-◌, Bool, true, false, Option, none, some, List, [], ◌∷◌, ◌++◌, Bytes, codes, map,
  length, take, drop, eqb, leb, if◌then◌else◌, ◌&&◌, ◌||◌, bytes_eq,
}
use tor_gateway.Tor.Base32.{encode_to_string, decode_string}

pub data OnionError : Type 0 where
  invalid_key_length : ℕ → OnionError
  missing_suffix : OnionError
  wrong_length : ℕ → OnionError
  invalid_base32 : OnionError
  wrong_decoded_length : ℕ → OnionError
  wrong_version : ℕ → OnionError
  checksum_mismatch : OnionError

pub record OnionAddress : Type 0 where
  pub pub_key : Bytes

pub data Parsed : Type 0 where
  ok : OnionAddress → Parsed
  fail : OnionError → Parsed

abbrev pub public_key_size : ℕ
public_key_size = 32

abbrev pub onion_address_version : ℕ
onion_address_version = 3

abbrev pub onion_magic : Bytes
onion_magic = codes ".onion checksum"

abbrev pub onion_suffix : Bytes
onion_suffix = codes ".onion"

abbrev pub onion_address_body_len : ℕ
onion_address_body_len = 35

abbrev pub onion_address_base32_len : ℕ
onion_address_base32_len = 56

abbrev pub to_lower : ℕ → ℕ
to_lower c = if leb b'A' c && leb c b'Z' then c + 32 else c

abbrev pub to_upper : ℕ → ℕ
to_upper c = if leb b'a' c && leb c b'z' then c - 32 else c

-- Space, and the controls from tab to carriage return.
abbrev pub is_space : ℕ → Bool
is_space c = eqb c 32 || (leb 9 c && leb c 13)

unfoldable pub trim_left : Bytes → Bytes
trim_left [] = []
trim_left (c ∷ s) = if is_space c then trim_left s else c ∷ s

abbrev pub cons_trimmed : ℕ → Bytes → Bytes
cons_trimmed c [] = if is_space c then [] else c ∷ []
cons_trimmed c (d ∷ s) = c ∷ d ∷ s

unfoldable pub trim_right : Bytes → Bytes
trim_right [] = []
trim_right (c ∷ s) = cons_trimmed c (trim_right s)

unfoldable pub trim_space : Bytes → Bytes
unfolding trim_left trim_right
trim_space s = trim_right (trim_left s)

unfoldable pub has_suffix : Bytes → Bytes → Bool
has_suffix s suffix =
    leb (length suffix) (length s) && bytes_eq (drop (length s - length suffix) s) suffix

unfoldable pub trim_suffix : Bytes → Bytes → Bytes
unfolding has_suffix
trim_suffix s suffix = if has_suffix s suffix then take (length s - length suffix) s else s

unfoldable pub address_from_public_key : Bytes → Parsed
address_from_public_key key =
    if eqb (length key) public_key_size
    then ok (record { pub_key = key })
    else fail (invalid_key_length (length key))

pub public_key : OnionAddress → Bytes
public_key a = a.pub_key

abbrev pub first_byte : Bytes → ℕ
first_byte [] = 0
first_byte (b ∷ _) = b

-- The byte of a slice that is long enough.
abbrev pub byte_at : ℕ → Bytes → ℕ
byte_at i s = first_byte (drop i s)

module _ (sha3_256 : Bytes → Bytes) where
  unfoldable pub onion_checksum : Bytes → Bytes
  onion_checksum key = take 2 (sha3_256 (onion_magic ++ (key ++ onion_address_version ∷ [])))

  unfoldable pub address_body : Bytes → Bytes
  unfolding onion_checksum
  address_body key = key ++ (onion_checksum key ++ onion_address_version ∷ [])

  unfoldable pub to_string : OnionAddress → Bytes
  unfolding address_body
  to_string a =
      if eqb (length a.pub_key) public_key_size
      then map to_lower (encode_to_string (address_body a.pub_key)) ++ onion_suffix
      else []

  parse_raw : Bytes → Parsed
  unfolding onion_checksum
  parse_raw raw =
      if eqb (length raw) onion_address_body_len
      then if eqb (byte_at 34 raw) onion_address_version
        then if bytes_eq (onion_checksum (take public_key_size raw)) (take 2 (drop 32 raw))
          then ok (record { pub_key = take public_key_size raw })
          else fail checksum_mismatch
        else fail (wrong_version (byte_at 34 raw))
      else fail (wrong_decoded_length (length raw))

  parse_decoded : Option Bytes → Parsed
  unfolding parse_raw
  parse_decoded none = fail invalid_base32
  parse_decoded (some raw) = parse_raw raw

  parse_stripped : Bytes → Parsed
  unfolding parse_decoded
  parse_stripped stripped =
      if eqb (length stripped) onion_address_base32_len
      then parse_decoded (decode_string (map to_upper stripped))
      else fail (wrong_length (length stripped))

  unfoldable pub parse_address : Bytes → Parsed
  unfolding parse_stripped trim_space trim_suffix
  parse_address addr =
      let lower = map to_lower (trim_space addr) in
      let stripped = trim_suffix lower onion_suffix in
      if bytes_eq stripped lower then fail missing_suffix else parse_stripped stripped
