-- ===== src/Onionbalance/Config.antt =====
-- internal/onionbalance/config.go: the text of config.yaml. SHA3-256 is a parameter.
use tor_gateway.Base.{ℕ, suc, Option, none, some, List, [], ◌∷◌, ◌++◌, Bytes, codes, decimal}
use tor_gateway.Tor.Onion.{OnionAddress, to_string}

-- In UTF-8.
abbrev em_dash : Bytes
em_dash = 226 ∷ 128 ∷ 148 ∷ []

module _ (sha3_256 : Bytes → Bytes) where
  instance_lines : ℕ → OnionAddress → Bytes
  instance_lines i a =
      codes "  - address: "
      ++ (to_string sha3_256 a ++ (codes "\n    name: backend-" ++ (decimal i ++ codes "\n")))

  -- The loop over the backends, with the index of the first.
  instances_from : ℕ → List OnionAddress → Bytes
  unfolding instance_lines
  instances_from i [] = []
  instances_from i (a ∷ backends) = instance_lines i a ++ instances_from (suc i) backends

  -- What follows the key's path.
  body : OnionAddress → List OnionAddress → Bytes
  unfolding instances_from
  body master [] = codes "  instances: []\n"
  body master (a ∷ backends) =
      codes "  instances:\n"
      ++ (instances_from 0 (a ∷ backends)
          ++ (codes "# master: " ++ (to_string sha3_256 master ++ codes "\n")))

  -- The path of the key is required.
  unfoldable pub render : OnionAddress → List OnionAddress → Bytes → Option Bytes
  unfolding body
  render master backends [] = none
  render master backends (c ∷ key_path) = some (
      codes "# generated by tor-gateway operator "
      ++ (em_dash
          ++ (codes " do not edit by hand\nservices:\n- key: "
              ++ ((c ∷ key_path) ++ (codes "\n" ++ body master backends)))))
