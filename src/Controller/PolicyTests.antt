-- ===== src/Controller/PolicyTests.antt =====
-- Runs of the policy reconcilers of internal/controller, and their theorems at concrete inputs.
use tor_gateway.Base.{
  ℕ, ◌≡◌, refl, sym, ◌∙◌, ◌≢◌, ◌==◌, eq_iff, ◌↔◌, String, true, Option, none, some, List, [], ◌∷◌,
  Bytes, Memᴰ, bytes_eq,
}
use tor_gateway.Api.{NamespacedName, Secret, ReferenceGrant, Gateway, Fetched}
use tor_gateway.Tor.Samples.{repeated, sample_key, sample_secret_file, sample_public_file}
use tor_gateway.Tor.Keys.{KeyPair, parse_files, looks_clamped}
use tor_gateway.Tor.MasterKey.{validate_master_key_secret}
use tor_gateway.Controller.Samples.{gateway, client_with}
use tor_gateway.Controller.Grants.{IsAdmitted, IsGranted, master_key_reference_grant_allows}
use tor_gateway.Controller.Policies.{
  TargetRef, AncestorStatus, TorServicePolicy, TorClientAuthPolicy, OnionBalancePolicy,
}
use tor_gateway.Controller.PolicyStatus.{
  PolicyOutcome, reconcile_service_policy, reconcile_client_auth_policy,
}
use tor_gateway.Controller.PolicyStatus.Settles.{reconcile_service_policy-settles}
use tor_gateway.Controller.OnionBalance
use tor_gateway.Controller.OnionBalance.{
  MasterFailure, MasterCheck, validate_master_key, reconcile_onion_balance_policy,
}
use tor_gateway.Controller.OnionBalance.Requests.{obps_for_reference_grant}
use tor_gateway.Controller.OnionBalance.Accepted.{
  IsAuthorized, validate_master_key_iff, from_policy, to_master_key,
}
use tor_gateway.Controller.OnionBalance.Status.{reconcile_onion_balance_policy-IsAuthorized}
use tor_gateway.Controller.OnionBalance.Watch.{obps_for_reference_grant_complete}

abbrev onion_ref : TargetRef
onion_ref = record { group = "gateway.networking.k8s.io"; kind = "Gateway"; name = "onion" }

abbrev service_policy : TorServicePolicy
service_policy = record {
  name = "slow";
  namespace = "apps";
  generation = 1;
  target_refs = onion_ref ∷ [];
  log_level = "";
  pow_defenses_enabled = none;
  vanity_prefix = [];
  resources = none;
  ancestors = [];
}

abbrev auth_policy : TorClientAuthPolicy
auth_policy = record {
  name = "friends";
  namespace = "apps";
  generation = 1;
  target_refs = onion_ref ∷ [];
  mode = "Enforce";
  clients_secret_name = "clients";
  ancestors = [];
}

abbrev accepted_ancestors : ℕ → List AncestorStatus
accepted_ancestors now =
    record {
      ancestor_ref = record {
        group = some "gateway.networking.k8s.io";
        kind = some "Gateway";
        namespace = some "apps";
        name = "onion";
        section_name = none;
      };
      controller_name = "torgateway.io/gateway-controller";
      conditions =
          record {
            kind = "Accepted";
            status = "True";
            reason = "Accepted";
            message = "Policy accepted by tor-gateway";
            observed_generation = 1;
            last_transition_time = now;
          }
          ∷ [];
    }
    ∷ []

service_policy_written :
    reconcile_service_policy (client_with []) 5 (Fetched.found service_policy)
    ≡ PolicyOutcome.update (record service_policy { ancestors = accepted_ancestors 5 })
unfolding reconcile_service_policy
service_policy_written = refl

reconcile_service_policy-settles_example :
    reconcile_service_policy
      (client_with [])
      9
      (Fetched.found (record service_policy { ancestors = accepted_ancestors 5; generation = 2 }))
    ≡ PolicyOutcome.done
reconcile_service_policy-settles_example =
    reconcile_service_policy-settles (client_with []) 5 9 2 service_policy
      (record service_policy { ancestors = accepted_ancestors 5 }) service_policy_written

auth_policy_written :
    reconcile_client_auth_policy (client_with []) 5 (Fetched.found auth_policy)
    ≡ PolicyOutcome.update (record auth_policy { ancestors = accepted_ancestors 5 })
unfolding reconcile_client_auth_policy
auth_policy_written = refl

abbrev obp : OnionBalancePolicy
obp = record {
  name = "front";
  namespace = "apps";
  generation = 4;
  target_refs = onion_ref ∷ [];
  master_key_namespace = "vault";
  master_key_name = "master";
  ancestors = [];
  ready_backends = 0;
}

abbrev master_secret : Secret
master_secret = record {
  name = "master";
  namespace = "vault";
  labels = [];
  owner_references = [];
  contents =
      ("hs_ed25519_secret_key", sample_secret_file)
      ∷ ("hs_ed25519_public_key", sample_public_file)
      ∷ [];
}

abbrev vault_grant : ReferenceGrant
vault_grant = record {
  namespace = "vault";
  from =
      record { group = "policy.torgateway.io"; kind = "OnionBalancePolicy"; namespace = "apps" }
      ∷ [];
  to = record { group = ""; kind = "Secret"; name = none } ∷ [];
}

abbrev obp_client : List ReferenceGrant → OnionBalance.Client
obp_client grants = record {
  get_gateway = λ ns name. Fetched.found gateway;
  get_secret = λ ns name. Fetched.found master_secret;
  list_grants = λ ns. some grants;
  list_backends = λ ns name. some [];
  list_service_policies = λ ns. some [];
}

abbrev derive : Bytes → Option Bytes
derive scalar = some (repeated 32 200)

validate_master_key_iff_example :
    (validate_master_key derive (obp_client (vault_grant ∷ [])) obp
      ≡ MasterCheck.accepted sample_key)
    ↔ IsAuthorized derive (obp_client (vault_grant ∷ [])) obp sample_key
validate_master_key_iff_example =
    validate_master_key_iff derive (obp_client (vault_grant ∷ [])) obp sample_key

master_key_denied :
    validate_master_key derive (obp_client []) obp
    ≡ MasterCheck.refused MasterFailure.cross_ns_denied
unfolding validate_master_key master_key_reference_grant_allows
master_key_denied = refl

abbrev describe : MasterFailure → String
describe e = "refused"

abbrev missing_text : String → String → String
missing_text ns name = "missing"

abbrev obp_ancestors : List AncestorStatus
obp_ancestors =
    record {
      ancestor_ref = record {
        group = some "gateway.networking.k8s.io";
        kind = some "Gateway";
        namespace = some "apps";
        name = "onion";
        section_name = none;
      };
      controller_name = "torgateway.io/gateway-controller";
      conditions =
          record {
            kind = "Accepted";
            status = "True";
            reason = "Accepted";
            message = "OnionBalancePolicy accepted";
            observed_generation = 4;
            last_transition_time = 5;
          }
          ∷ [];
    }
    ∷ []

obp_written :
    reconcile_onion_balance_policy describe missing_text derive
      (obp_client (vault_grant ∷ []))
      5
      (Fetched.found obp)
    ≡ PolicyOutcome.update (record obp { ancestors = obp_ancestors; ready_backends = 0 })
unfolding reconcile_onion_balance_policy validate_master_key_secret
    master_key_reference_grant_allows parse_files looks_clamped bytes_eq
obp_written = refl

reconcile_onion_balance_policy-IsAuthorized_example :
    ((kp : KeyPair) × IsAuthorized derive (obp_client (vault_grant ∷ [])) obp kp)
    × ((gw : Gateway) × (Fetched.found gateway ≡ Fetched.found gw))
reconcile_onion_balance_policy-IsAuthorized_example =
    reconcile_onion_balance_policy-IsAuthorized describe missing_text
      (obp_client (vault_grant ∷ [])) derive 5 obp
      (record obp { ancestors = obp_ancestors; ready_backends = 0 }) obp_written (Memᴰ.head refl)
      (Memᴰ.head refl) refl

vault_grant-IsGranted : IsGranted (vault_grant ∷ []) (from_policy obp) (to_master_key obp)
vault_grant-IsGranted = record {
  grant = vault_grant;
  listed = Memᴰ.head refl;
  referrer = Memᴰ.head refl;
  entry = none;
  referent = Memᴰ.head refl;
  admitted = IsAdmitted.unnamed;
}

named_vault : {s : String} → s ≡ "vault" → s ≢ ""
named_vault e z =
    let same : ("vault" == "") ≡ true = (eq_iff "vault" "").1 (sym e ∙ z) in absurd (cc same)

obps_for_reference_grant_complete_example :
    Memᴰ {A = NamespacedName}
      (record { namespace = "apps"; name = "front" })
      (obps_for_reference_grant (some (obp ∷ [])) vault_grant)
obps_for_reference_grant_complete_example =
    obps_for_reference_grant_complete (obp ∷ []) obp vault_grant (Memᴰ.head refl) refl
      (named_vault refl) vault_grant-IsGranted
