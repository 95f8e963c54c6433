-- ===== src/Controller/Resources.antt =====
-- internal/controller/gateway_resources.go: the children of a Gateway that do not hold its key, but for
-- the Deployment, and setProgrammingCondition of vanity.go. The owner references that
-- SetControllerReference gives, if it succeeds, are a parameter.
pub mod Torrc
use tor_gateway.Base.{
  ℤ, ℕ, String, Bool, true, false, Option, none, some, List, [], ◌∷◌, ◌++◌, Bytes, codes, decimal,
  if◌then◌else◌, ◌||◌,
}
use tor_gateway.Api.{Condition, OwnerReference, Gateway}
use tor_gateway.Tor.Vanity.{VolumeMount}
use tor_gateway.Tor.Torrc.{TorrcConfig, TorrcError, Rendered, render_torrc}
use tor_gateway.Controller.Names.{
  child_labels, router_rbac_name, torrc_config_map_name, service_name, hs_service_dir, tor_data_dir,
  loopback_target_port,
}
use tor_gateway.Controller.Children.{ObjectMeta, RoleBinding}
use tor_gateway.Controller.Policies.{EffectiveServicePolicy, EffectiveClientAuth}
use tor_gateway.Controller.Conditions.{set_condition}

pub record ConfigMap : Type 0 where
  pub meta : ObjectMeta
  pub contents : List (String × Bytes)

pub record ServicePort : Type 0 where
  pub name : String
  pub port : ℕ
  pub target_port : ℕ
  pub protocol : String

-- A headless Service.
pub record Service : Type 0 where
  pub meta : ObjectMeta
  pub selector : List (String × String)
  pub ports : List ServicePort

abbrev child_meta : String → Gateway → List OwnerReference → ObjectMeta
child_meta name gw owners = record {
  name = name;
  namespace = gw.namespace;
  labels = child_labels gw.name;
  owner_references = owners;
}

unfoldable pub torrc_config_of : EffectiveServicePolicy → EffectiveClientAuth → Bytes → TorrcConfig
torrc_config_of policy auth testing_network_include = record {
  hidden_service_dir = codes hs_service_dir;
  hidden_service_port = record {
    virtual_port = ℤ.pos 80;
    target_host = codes "127.0.0.1";
    target_port = ℤ.pos loopback_target_port;
  };
  log_level = policy.log_level;
  data_directory = codes tor_data_dir;
  pow_defenses_enabled = policy.pow_defenses_enabled;
  client_auth_dir =
      if auth.enabled then codes hs_service_dir ++ codes "/authorized_clients" else [];
  metrics_port = ℤ.pos 9035;
  metrics_port_policy = codes "accept 0.0.0.0/0";
  extra_directives = [];
  onionbalance_instance = false;
  testing_network_include = testing_network_include;
}

pub data Built : Type 0 where
  built : ConfigMap → Built
  refused : TorrcError → Built
  reference_error : Built

config_map_of : Gateway → Option (List OwnerReference) → Rendered → Built
config_map_of gw owners (Rendered.invalid e) = Built.refused e
config_map_of gw none (Rendered.rendered text) = Built.reference_error
config_map_of gw (some owners) (Rendered.rendered text) = Built.built (record {
  meta = child_meta (torrc_config_map_name gw.name) gw owners;
  contents = ("torrc", text) ∷ [];
})

unfoldable pub build_torrc_config_map :
    (Bytes → Bool)
    → (Bytes → Bytes → Bytes)
    → (List Bytes → List Bytes)
    → Gateway
    → EffectiveServicePolicy
    → EffectiveClientAuth
    → Bytes
    → Option (List OwnerReference)
    → Built
unfolding torrc_config_of render_torrc config_map_of
build_torrc_config_map is_loopback join sort_strings gw policy auth testing_network_include owners =
    config_map_of gw owners (
      render_torrc is_loopback join sort_strings
        (torrc_config_of policy auth testing_network_include))

unfoldable pub build_service_account : Gateway → Option (List OwnerReference) → Option ObjectMeta
build_service_account gw none = none
build_service_account gw (some owners) = some (child_meta (router_rbac_name gw.name) gw owners)

unfoldable pub build_role_binding : Gateway → Option (List OwnerReference) → Option RoleBinding
build_role_binding gw none = none
build_role_binding gw (some owners) = some (record {
  meta = child_meta (router_rbac_name gw.name) gw owners;
  role_ref = record {
    api_group = "rbac.authorization.k8s.io";
    kind = "Role";
    name = router_rbac_name gw.name;
  };
  subjects =
      record { kind = "ServiceAccount"; name = router_rbac_name gw.name; namespace = gw.namespace }
      ∷ [];
})

unfoldable pub init_container_args : EffectiveClientAuth → List String
init_container_args auth =
    "--src"
    ∷ "/etc/tor/keys"
    ∷ "--dst"
    ∷ hs_service_dir
    ∷ (if auth.enabled then "--client-auth-src" ∷ "/etc/tor-client-auth" ∷ [] else [])

unfoldable pub init_container_mounts : EffectiveClientAuth → List VolumeMount
init_container_mounts auth =
    record { name = "tor-keys"; mount_path = "/etc/tor/keys"; read_only = true }
    ∷ record { name = "tor-hsdir"; mount_path = "/var/lib/tor/hs"; read_only = false }
    ∷ (if auth.enabled
        then record {
          name = "tor-client-auth";
          mount_path = "/etc/tor-client-auth";
          read_only = true;
        }
          ∷ []
        else [])

unfoldable pub build_service : Gateway → Option (List OwnerReference) → Option Service
build_service gw none = none
build_service gw (some owners) = some (record {
  meta = child_meta (service_name gw.name) gw owners;
  selector = child_labels gw.name;
  ports =
      record {
        name = "router";
        port = loopback_target_port;
        target_port = loopback_target_port;
        protocol = "TCP";
      }
      ∷ [];
})

-- The conditions of a Gateway of this generation whose key is not there yet, and whether they changed.
unfoldable pub set_programming_condition :
    ℕ → ℕ → String → String → List Condition → List Condition × Bool
unfolding set_condition
set_programming_condition generation now reason message conds =
    let accepted = set_condition conds (record {
      kind = "Accepted";
      status = "True";
      reason = "Accepted";
      message = "Gateway accepted by tor-gateway";
      observed_generation = generation;
      last_transition_time = now;
    }) in
    let programmed = set_condition accepted.0 (record {
      kind = "Programmed";
      status = "False";
      reason = reason;
      message = message;
      observed_generation = generation;
      last_transition_time = now;
    }) in
    (programmed.0, accepted.1 || programmed.1)
