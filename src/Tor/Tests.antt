-- ===== src/Tor/Tests.antt =====
-- Runs of internal/tor on concrete keys, and its theorems at such inputs. The digests are stand-ins
-- for SHA3-256 and SHA-512 of the right lengths.
use tor_gateway.Base.{
  String, List, Option, some, ◌≡◌, refl, ◌↔◌, [], ◌∷◌, ◌++◌, map, Bytes, codes, length, bytes_eq,
  arith,
}
use tor_gateway.Tor.Base32.{encode_to_string, decode_string}
use tor_gateway.Tor.Onion.{
  OnionAddress, ok, fail, missing_suffix, to_lower, trim_space, to_string, parse_address,
}
use tor_gateway.Tor.Onion.RoundTrip.{IsDigest, IsAddress, parse_address-to_string}
use tor_gateway.Tor.Onion.Canonical.{parse_address-canonical}
use tor_gateway.Tor.Keys.{
  done, expand_seed, generate_key_pair, secret_key_file, public_key_file, parse_files,
  looks_clamped,
}
use tor_gateway.Tor.Keys.Clamp.{IsClamped, expand_seed-IsClamped}
use tor_gateway.Tor.Keys.RoundTrip.{IsKeyPair, parse_files_iff}
use tor_gateway.Tor.Samples.{
  repeated, sample_sha3, sample_sha512, sample_expanded, sample_key, sample_secret_file,
  sample_public_file,
}
use tor_gateway.Tor.Keys.Generate.{IsSha512, generate_key_pair-IsKeyPair}
use tor_gateway.Tor.MasterKey.{MasterKeyError, MasterResult, validate_master_key_secret}
use tor_gateway.Tor.MasterKey.Pair.{IsMasterKey, validate_master_key_secret_iff}

sample_sha3-IsDigest : IsDigest sample_sha3
sample_sha3-IsDigest = record { size = λ s. refl; bytes = λ s. omega arith }

abbrev sample_address : OnionAddress
sample_address = record { pub_key = repeated 32 200 }

abbrev sample_text : Bytes
sample_text = codes "zdemrsgizdemrsgizdemrsgizdemrsgizdemrsgizdemrsgizdeaobyd.onion"

rfc_4648 : encode_to_string (codes "foobar") ≡ codes "MZXW6YTBOI"
unfolding encode_to_string
rfc_4648 = refl

sample_prints : to_string sample_sha3 sample_address ≡ sample_text
unfolding to_string encode_to_string
sample_prints = refl

sample_parses : parse_address sample_sha3 (codes " " ++ sample_text) ≡ ok sample_address
unfolding parse_address decode_string bytes_eq
sample_parses = refl

no_suffix : parse_address sample_sha3 (codes "zdemrsgi") ≡ fail missing_suffix
unfolding parse_address decode_string bytes_eq
no_suffix = refl

parse_address-to_string_example :
    parse_address sample_sha3 (to_string sample_sha3 sample_address) ≡ ok sample_address
parse_address-to_string_example =
    parse_address-to_string sample_sha3 sample_sha3-IsDigest sample_address
      (record { size = refl; bytes = omega arith })

parse_address-canonical_example :
    (to_string sample_sha3 sample_address ≡ map to_lower (trim_space (codes " " ++ sample_text)))
    × IsAddress sample_address
parse_address-canonical_example =
    parse_address-canonical sample_sha3 (codes " " ++ sample_text) sample_address sample_parses

sample_expands : expand_seed sample_sha512 (repeated 32 1) ≡ done sample_expanded
unfolding expand_seed
sample_expands = refl

expand_seed-IsClamped_example : IsClamped sample_expanded × (length sample_expanded ≡ 64)
expand_seed-IsClamped_example =
    expand_seed-IsClamped sample_sha512 (repeated 32 1) sample_expanded refl (omega arith)
      sample_expands

sample_files_parse : parse_files sample_secret_file sample_public_file ≡ done sample_key
unfolding parse_files looks_clamped bytes_eq
sample_files_parse = refl

parse_files_iff_example : (parse_files sample_secret_file sample_public_file ≡ done sample_key) ↔ (
    (secret_key_file sample_key ≡ done sample_secret_file)
    × (public_key_file sample_key ≡ done sample_public_file)
    × IsKeyPair sample_key)
parse_files_iff_example = parse_files_iff sample_secret_file sample_public_file sample_key

sample_sha512-IsSha512 : IsSha512 sample_sha512
sample_sha512-IsSha512 = record { size = λ s. refl; bytes = λ s. omega arith }

sample_generates :
    generate_key_pair sample_sha512 (some (repeated 32 200, repeated 64 1)) ≡ done sample_key
unfolding generate_key_pair expand_seed
sample_generates = refl

generate_key_pair-IsKeyPair_example : IsKeyPair sample_key
generate_key_pair-IsKeyPair_example =
    generate_key_pair-IsKeyPair sample_sha512 (some (repeated 32 200, repeated 64 1)) sample_key
      sample_sha512-IsSha512 refl sample_generates

abbrev sample_derive : Bytes → Option Bytes
sample_derive scalar = some (repeated 32 200)

abbrev sample_contents : List (String × Bytes)
sample_contents =
    ("hs_ed25519_secret_key", sample_secret_file)
    ∷ ("hs_ed25519_public_key", sample_public_file)
    ∷ []

master_key_valid :
    validate_master_key_secret sample_derive sample_contents ≡ MasterResult.valid sample_key
unfolding validate_master_key_secret parse_files looks_clamped bytes_eq
master_key_valid = refl

master_key_of_no_secret :
    validate_master_key_secret sample_derive [] ≡ MasterResult.invalid MasterKeyError.missing_secret
unfolding validate_master_key_secret
master_key_of_no_secret = refl

validate_master_key_secret_iff_example :
    (validate_master_key_secret sample_derive sample_contents ≡ MasterResult.valid sample_key)
    ↔ IsMasterKey sample_derive sample_contents sample_key
validate_master_key_secret_iff_example =
    validate_master_key_secret_iff sample_derive sample_contents sample_key
