-- ===== src/Controller/ResourceTests.antt =====
-- Runs of the builders of internal/controller/gateway_resources.go, and their theorem at a concrete
-- policy.
use tor_gateway.Base.{
  ◌≡◌, refl, Bool, true, none, some, List, [], ◌∷◌, ◌++◌, Bytes, codes, bytes_eq,
}
use tor_gateway.Tor.Torrc.{valid_log_level, torrc_text}
use tor_gateway.Controller.Samples.{gateway}
use tor_gateway.Controller.Names.{hs_service_dir}
use tor_gateway.Controller.Policies.{EffectiveClientAuth, default_policy}
use tor_gateway.Controller.Resources.{
  ConfigMap, Built, torrc_config_of, build_torrc_config_map, init_container_args,
  set_programming_condition,
}
use tor_gateway.Controller.Resources.Torrc.{build_torrc_config_map_lem}

abbrev is_local : Bytes → Bool
is_local host = bytes_eq host (codes "127.0.0.1")

abbrev join : Bytes → Bytes → Bytes
join dir name = dir ++ (codes "/" ++ name)

abbrev as_listed : List Bytes → List Bytes
as_listed ks = ks

abbrev auth : EffectiveClientAuth
auth = record { enabled = true; secret_name = "clients" }

is_local_host : is_local (codes "127.0.0.1") ≡ true
unfolding bytes_eq
is_local_host = refl

default_level : valid_log_level default_policy.log_level ≡ true
unfolding valid_log_level
default_level = refl

build_torrc_config_map_lem_example :
    (cm : ConfigMap) × (build_torrc_config_map is_local join as_listed gateway default_policy auth
        []
        (some [])
      ≡ Built.built cm)
    × (cm.meta.owner_references ≡ [])
    × (cm.contents ≡ ("torrc", torrc_text as_listed (torrc_config_of default_policy auth [])) ∷ [])
build_torrc_config_map_lem_example =
    build_torrc_config_map_lem is_local join is_local_host refl as_listed gateway default_policy
      auth [] [] default_level

no_reference :
    build_torrc_config_map is_local join as_listed gateway default_policy auth [] none
    ≡ Built.reference_error
unfolding build_torrc_config_map bytes_eq
no_reference = refl

auth_args :
    init_container_args auth
    ≡ "--src" ∷ "/etc/tor/keys" ∷ "--dst" ∷ hs_service_dir ∷ "--client-auth-src"
      ∷ "/etc/tor-client-auth" ∷ []
unfolding init_container_args
auth_args = refl

two_conditions : (set_programming_condition 1 5 "Pending" "harvest" []).1 ≡ true
unfolding set_programming_condition
two_conditions = refl
