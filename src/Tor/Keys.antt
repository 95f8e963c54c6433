-- ===== src/Tor/Keys.antt =====
-- internal/tor/keys.go: hidden-service keys and their files. `crypto/ed25519` and `crypto/sha512` are
-- parameters, as the outcome of the key generator and as the digest.
pub mod RoundTrip
pub mod Clamp
pub mod Generate
use Prim.Native.Nat.{bit_and, bit_or}
use mathlib.Core.Option
use tor_gateway.Base.{
  ℕ, zero, suc, ◌+◌, ◌-◌, Bool, true, false, Option, none, some, List, [], ◌∷◌, ◌++◌, Bytes, codes,
  length, take, drop, eqb, ltb, if◌then◌else◌, ◌&&◌, bytes_eq,
}
use tor_gateway.Tor.Onion.{
  OnionAddress, Parsed, ok, fail, address_from_public_key, to_string, byte_at,
}

abbrev pub tag_secret : Bytes
tag_secret = codes "== ed25519v1-secret: type0 =="

abbrev pub tag_public : Bytes
tag_public = codes "== ed25519v1-public: type0 =="

abbrev pub header_len : ℕ
header_len = 32

abbrev pub expanded_secret_len : ℕ
expanded_secret_len = 64

abbrev pub secret_key_file_size : ℕ
secret_key_file_size = header_len + expanded_secret_len

abbrev pub public_key_file_size : ℕ
public_key_file_size = header_len + 32

abbrev pub seed_size : ℕ
seed_size = 32

pub record KeyPair : Type 0 where
  pub public_key : Bytes
  pub expanded : Bytes

-- `panic` is a panic of Go.
pub data KeyError : Type 0 where
  secret_size public_size : ℕ → KeyError
  secret_header public_header not_clamped generator_failed panic : KeyError

pub data Result {ℓ} (A : Type ℓ) : Type ℓ where
  done : A → Result A
  error : KeyError → Result A

infixl 5 ◌>>=◌
abbrev pub ◌>>=◌ {ℓ κ} : {A : Type ℓ} {B : Type κ} → Result A → (A → Result B) → Result B
done a >>= f = f a
error e >>= f = error e

abbrev zeros : ℕ → Bytes
zeros zero = []
zeros (suc n) = 0 ∷ zeros n

unfoldable pub header : Bytes → Result Bytes
header tag =
    if ltb header_len (length tag)
    then error panic
    else done (tag ++ zeros (header_len - length tag))

abbrev set_at : ℕ → (ℕ → ℕ) → Bytes → Bytes
set_at i f [] = []
set_at zero f (b ∷ s) = f b ∷ s
set_at (suc i) f (b ∷ s) = b ∷ set_at i f s

abbrev clear_low : ℕ → ℕ
clear_low b = bit_and b 248

abbrev clear_top : ℕ → ℕ
clear_top b = bit_and b 127

abbrev set_second : ℕ → ℕ
set_second b = bit_or b 64

-- `h[0] &= 248`, `h[31] &= 127` and `h[31] |= 64`.
unfoldable pub clamp : Bytes → Bytes
clamp h = set_at 31 set_second (set_at 31 clear_top (set_at 0 clear_low h))

unfoldable pub expand_seed : (Bytes → Bytes) → Bytes → Result Bytes
unfolding clamp
expand_seed sha512 seed =
    if eqb (length seed) seed_size then done (clamp (sha512 seed)) else error panic

unfoldable pub looks_clamped : Bytes → Bool
looks_clamped body =
    if ltb (length body) expanded_secret_len
    then false
    else eqb (bit_and (byte_at 0 body) 0x07) 0 && eqb (bit_and (byte_at 31 body) 0xC0) 0x40

-- For the outcome of `ed25519.GenerateKey`: the public key and the private key, whose first bytes
-- are the seed.
unfoldable pub generate_key_pair : (Bytes → Bytes) → Option (Bytes × Bytes) → Result KeyPair
unfolding expand_seed
generate_key_pair sha512 none = error generator_failed
generate_key_pair sha512 (some (key, priv)) = do
  expanded ← expand_seed sha512 (take seed_size priv)
  done (record { public_key = key; expanded = expanded })

-- The address of a key; the zero value where the key has the wrong length.
abbrev parsed_or_zero : Parsed → OnionAddress
parsed_or_zero (ok a) = a
parsed_or_zero (fail e) = record { pub_key = [] }

unfoldable pub onion_address : KeyPair → OnionAddress
unfolding address_from_public_key
onion_address k = parsed_or_zero (address_from_public_key k.public_key)

unfoldable pub hostname : (Bytes → Bytes) → KeyPair → Bytes
unfolding onion_address
hostname sha3_256 k = to_string sha3_256 (onion_address k) ++ codes "\n"

unfoldable pub secret_key_file : KeyPair → Result Bytes
unfolding header
secret_key_file k = do h ← header tag_secret; done (h ++ k.expanded)

unfoldable pub public_key_file : KeyPair → Result Bytes
unfolding header
public_key_file k = do h ← header tag_public; done (h ++ k.public_key)

-- What follows the test of the size, for the header that is wanted.
secret_body : Bytes → Bytes → Result Bytes
secret_body contents h =
    if bytes_eq (take header_len contents) h
    then if looks_clamped (drop header_len contents)
      then done (drop header_len contents)
      else error not_clamped
    else error secret_header

unfoldable pub parse_secret_key : Bytes → Result Bytes
unfolding header secret_body
parse_secret_key contents =
    if eqb (length contents) secret_key_file_size
    then header tag_secret >>= secret_body contents
    else error (secret_size (length contents))

public_body : Bytes → Bytes → Result Bytes
public_body contents h =
    if bytes_eq (take header_len contents) h
    then done (drop header_len contents)
    else error public_header

unfoldable pub parse_public_key : Bytes → Result Bytes
unfolding header public_body
parse_public_key contents =
    if eqb (length contents) public_key_file_size
    then header tag_public >>= public_body contents
    else error (public_size (length contents))

unfoldable pub parse_files : Bytes → Bytes → Result KeyPair
unfolding parse_secret_key parse_public_key
parse_files secret public = do
  expanded ← parse_secret_key secret
  key ← parse_public_key public
  done (record { public_key = key; expanded = expanded })
