-- ===== src/Tor/MasterKey.antt =====
-- internal/tor/master_key.go: the key of the frontend of an onionbalance service. The curve of
-- edwards25519 is a parameter: the public key of the first half of an expanded key, none where it is
-- refused.
pub mod Pair
use tor_gateway.Base.{
  ℕ, String, Bool, true, false, Option, none, some, List, [], ◌∷◌, Bytes, length, take, drop, eqb,
  if◌then◌else◌, bytes_eq,
}
use tor_gateway.Api.{data_at}
use tor_gateway.Tor.Onion.{OnionAddress}
use tor_gateway.Tor.Keys.{KeyPair, KeyError, Result, header_len, parse_files, onion_address}

pub data MasterKeyError : Type 0 where
  missing_secret missing_public bad_scalar mismatch : MasterKeyError
  parse : KeyError → MasterKeyError

pub data MasterResult {ℓ} (A : Type ℓ) : Type ℓ where
  valid : A → MasterResult A
  invalid : MasterKeyError → MasterResult A

module _ (derive : Bytes → Option Bytes) where
  -- The derived public key against the one of the file.
  same_public : KeyPair → Bytes → Option Bytes → MasterResult KeyPair
  same_public kp public_bytes none = MasterResult.invalid MasterKeyError.bad_scalar
  same_public kp public_bytes (some derived) =
      if bytes_eq derived (drop header_len public_bytes)
      then MasterResult.valid kp
      else MasterResult.invalid MasterKeyError.mismatch

  forms_pair : Bytes → Result KeyPair → MasterResult KeyPair
  unfolding same_public
  forms_pair public_bytes (Result.error e) = MasterResult.invalid (MasterKeyError.parse e)
  forms_pair public_bytes (Result.done kp) =
      same_public kp public_bytes (derive (take 32 kp.expanded))

  -- A missing entry and an empty one are refused alike.
  unfoldable pub validate_master_key_secret : List (String × Bytes) → MasterResult KeyPair
  unfolding forms_pair
  validate_master_key_secret contents =
      let secret_bytes = data_at "hs_ed25519_secret_key" contents in
      let public_bytes = data_at "hs_ed25519_public_key" contents in
      if eqb (length secret_bytes) 0
      then MasterResult.invalid MasterKeyError.missing_secret
      else if eqb (length public_bytes) 0
      then MasterResult.invalid MasterKeyError.missing_public
      else forms_pair public_bytes (parse_files secret_bytes public_bytes)

  address_of : MasterResult KeyPair → MasterResult OnionAddress
  address_of (MasterResult.valid kp) = MasterResult.valid (onion_address kp)
  address_of (MasterResult.invalid e) = MasterResult.invalid e

  unfoldable pub master_onion_from_secret : List (String × Bytes) → MasterResult OnionAddress
  unfolding address_of validate_master_key_secret
  master_onion_from_secret contents = address_of (validate_master_key_secret contents)
