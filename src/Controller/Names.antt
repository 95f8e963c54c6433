-- ===== src/Controller/Names.antt =====
-- internal/controller/names.go: the names and labels of the children of a Gateway.
use Prim.Native.String.{◌++◌}
use tor_gateway.Base.{ℕ, String, List, [], ◌∷◌}

abbrev pub managed_by_label_key : String
managed_by_label_key = "app.kubernetes.io/managed-by"

abbrev pub gateway_label_key : String
gateway_label_key = "torgateway.io/gateway"

abbrev pub vanity_prefix_label : String
vanity_prefix_label = "torgateway.io/vanity-prefix"

abbrev pub key_secret_name : String → String
key_secret_name gw = gw ++ "-keys"

abbrev pub vanity_rbac_name : String → String
vanity_rbac_name gw = gw ++ "-vanity"

abbrev pub vanity_out_secret_name : String → String
vanity_out_secret_name gw = gw ++ "-vanity-out"

abbrev pub router_rbac_name : String → String
router_rbac_name gw = gw ++ "-router"

abbrev pub torrc_config_map_name : String → String
torrc_config_map_name gw = gw ++ "-torrc"

-- The suffix is empty.
abbrev pub service_name : String → String
service_name gw = gw

-- `hsDirMountPath`/hs and `dataMountPath`/data.
abbrev pub hs_service_dir : String
hs_service_dir = "/var/lib/tor/hs/hs"

abbrev pub tor_data_dir : String
tor_data_dir = "/var/lib/tor/data/data"

abbrev pub loopback_target_port : ℕ
loopback_target_port = 9080

abbrev pub child_labels : String → List (String × String)
child_labels gw = (managed_by_label_key, "tor-gateway") ∷ (gateway_label_key, gw) ∷ []
