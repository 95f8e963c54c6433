-- ===== src/Tor/Samples.antt =====
-- Concrete keys and key files for the tests. The digests are stand-ins for SHA3-256 and SHA-512 of the
-- right lengths.
use tor_gateway.Base.{ℕ, zero, suc, [], ◌∷◌, ◌++◌, Bytes, codes}
use tor_gateway.Tor.Keys.{KeyPair}

abbrev pub repeated : ℕ → ℕ → Bytes
repeated zero b = []
repeated (suc n) b = b ∷ repeated n b

abbrev pub sample_sha3 : Bytes → Bytes
sample_sha3 s = repeated 32 7

abbrev pub sample_sha512 : Bytes → Bytes
sample_sha512 s = repeated 64 255

abbrev pub sample_expanded : Bytes
sample_expanded = 248 ∷ (repeated 30 255 ++ (127 ∷ repeated 32 255))

abbrev pub sample_key : KeyPair
sample_key = record { public_key = repeated 32 200; expanded = sample_expanded }

abbrev pub sample_secret_file : Bytes
sample_secret_file = codes "== ed25519v1-secret: type0 ==" ++ (repeated 3 0 ++ sample_expanded)

abbrev pub sample_public_file : Bytes
sample_public_file = codes "== ed25519v1-public: type0 ==" ++ (repeated 3 0 ++ repeated 32 200)
