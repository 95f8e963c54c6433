-- ===== src/Controller/OnionBalance/Requests.antt =====
-- internal/controller/onionbalancepolicy_controller.go: the policies to reconcile when a watched object
-- changes. A listing is a parameter, none when it fails.
use tor_gateway.Base.{
  String, Bool, false, Option, none, some, List, [], ◌∷◌, any, not, if◌then◌else◌, ◌&&◌, ◌||◌, ◌==◌,
}
use tor_gateway.Api.{label_at, NamespacedName, Secret, GrantFrom, ReferenceGrant, Gateway}
use tor_gateway.Controller.Policies.{TargetRef, TorServicePolicy, OnionBalancePolicy}

-- The loop over the listed policies.
unfoldable pub collect : (OnionBalancePolicy → Bool) → List OnionBalancePolicy → List NamespacedName
collect needs [] = []
collect needs (p ∷ ps) =
    let rest = collect needs ps in
    if needs p then record { namespace = p.namespace; name = p.name } ∷ rest else rest

unfoldable pub requests :
    (OnionBalancePolicy → Bool) → Option (List OnionBalancePolicy) → List NamespacedName
unfolding collect
requests needs none = []
requests needs (some ps) = collect needs ps

abbrev targets_name : String → OnionBalancePolicy → Bool
targets_name name p = any (λ (r : TargetRef). r.name == name) p.target_refs

unfoldable pub has_master_secret : Secret → OnionBalancePolicy → Bool
has_master_secret s p =
    ((if p.master_key_namespace == "" then p.namespace else p.master_key_namespace) == s.namespace)
    && (p.master_key_name == s.name)

unfoldable pub has_backend_secret : Secret → OnionBalancePolicy → Bool
unfolding label_at
has_backend_secret s p =
    (label_at "torgateway.io/role" s.labels == "backend")
    && not (label_at "torgateway.io/gateway" s.labels == "")
    && any
        (λ (r : TargetRef).
          (r.name == label_at "torgateway.io/gateway" s.labels) && (s.namespace == p.namespace))
        p.target_refs

unfoldable pub obps_for_secret : Option (List OnionBalancePolicy) → Secret → List NamespacedName
unfolding requests has_master_secret has_backend_secret
obps_for_secret listed s = requests (λ p. has_master_secret s p || has_backend_secret s p) listed

unfoldable pub obps_for_gateway :
    (String → Option (List OnionBalancePolicy)) → Gateway → List NamespacedName
unfolding requests
obps_for_gateway list gw = requests (targets_name gw.name) (list gw.namespace)

unfoldable pub grant_concerns : ReferenceGrant → OnionBalancePolicy → Bool
grant_concerns rg p =
    if (p.master_key_namespace == "") || not (p.master_key_namespace == rg.namespace)
    then false
    else any
        (λ (f : GrantFrom).
          (f.group == "policy.torgateway.io")
          && (f.kind == "OnionBalancePolicy")
          && (f.namespace == p.namespace))
        rg.from

unfoldable pub obps_for_reference_grant :
    Option (List OnionBalancePolicy) → ReferenceGrant → List NamespacedName
unfolding requests grant_concerns
obps_for_reference_grant listed rg = requests (grant_concerns rg) listed

abbrev shares_target : TorServicePolicy → OnionBalancePolicy → Bool
shares_target tsp p =
    any (λ (r : TargetRef). any (λ (t : TargetRef). t.name == r.name) tsp.target_refs) p.target_refs

unfoldable pub obps_for_tor_service_policy :
    (String → Option (List OnionBalancePolicy)) → TorServicePolicy → List NamespacedName
unfolding requests
obps_for_tor_service_policy list tsp = requests (shares_target tsp) (list tsp.namespace)
