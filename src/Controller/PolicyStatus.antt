-- ===== src/Controller/PolicyStatus.antt =====
-- internal/controller/torservicepolicy_controller.go and torclientauthpolicy_controller.go: the status
-- of a policy for each of its targets. The answers of the API client are a parameter.
pub mod Settles
use tor_gateway.Base.{
  ℕ, String, Bool, true, false, Option, none, some, List, [], ◌∷◌, if◌then◌else◌, ◌&&◌, ◌==◌,
}
use tor_gateway.Api.{Condition, ParentReference, Gateway, GatewayClass, Fetched}
use tor_gateway.Controller.Conditions.{controller_name}
use tor_gateway.Controller.Permitted.{Client}
use tor_gateway.Controller.Policies.{
  TargetRef, AncestorStatus, TorServicePolicy, TorClientAuthPolicy,
}

-- The status, the reason and the message of a target, or an error of the client.
pub data Evaluated : Type 0 where
  evaluated : String → String → String → Evaluated
  get_error : Evaluated

evaluate_class : Fetched GatewayClass → Evaluated
evaluate_class (Fetched.found gc) =
    if gc.controller_name == controller_name
    then Evaluated.evaluated "True" "Accepted" "Policy accepted by tor-gateway"
    else Evaluated.evaluated "False" "TargetNotManaged"
        "Gateway is managed by a different controller"
evaluate_class Fetched.not_found =
    Evaluated.evaluated "False" "TargetNotManaged" "Gateway's GatewayClass does not exist"
evaluate_class Fetched.failed = Evaluated.get_error

evaluate_gateway : Client → Fetched Gateway → Evaluated
unfolding evaluate_class
evaluate_gateway client (Fetched.found gw) = evaluate_class (client.get_class gw.class_name)
evaluate_gateway client Fetched.not_found =
    Evaluated.evaluated "False" "TargetNotFound" "Referenced Gateway does not exist"
evaluate_gateway client Fetched.failed = Evaluated.get_error

unfoldable pub evaluate_policy_target : Client → TargetRef → String → Evaluated
unfolding evaluate_gateway
evaluate_policy_target client ref ns = evaluate_gateway client (client.get_gateway ns ref.name)

unfoldable pub ancestor_of : TargetRef → String → Condition → AncestorStatus
ancestor_of ref ns cond = record {
  ancestor_ref = record {
    group = some ref.group;
    kind = some ref.kind;
    namespace = some ns;
    name = ref.name;
    section_name = none;
  };
  controller_name = controller_name;
  conditions = cond ∷ [];
}

accepted_cond : ℕ → ℕ → String → String → String → Condition
accepted_cond generation now status reason message = record {
  kind = "Accepted";
  status = status;
  reason = reason;
  message = message;
  observed_generation = generation;
  last_transition_time = now;
}

add_ancestor :
    (Condition → AncestorStatus)
    → ℕ
    → ℕ
    → Evaluated
    → Option (List AncestorStatus)
    → Option (List AncestorStatus)
unfolding accepted_cond
add_ancestor make generation now Evaluated.get_error rest = none
add_ancestor make generation now (Evaluated.evaluated status reason message) none = none
add_ancestor make generation now (Evaluated.evaluated status reason message) (some out) =
    some (make (accepted_cond generation now status reason message) ∷ out)

-- One entry for each target; an error of the client ends the loop.
unfoldable pub build_ancestors :
    Client → String → ℕ → ℕ → List TargetRef → Option (List AncestorStatus)
unfolding add_ancestor evaluate_policy_target ancestor_of
build_ancestors client ns generation now [] = some []
build_ancestors client ns generation now (ref ∷ refs) =
    add_ancestor (ancestor_of ref ns) generation now (evaluate_policy_target client ref ns)
      (build_ancestors client ns generation now refs)

unfoldable pub obj_equal : Option String → Option String → Bool
obj_equal none none = true
obj_equal none (some b) = false
obj_equal (some a) none = false
obj_equal (some a) (some b) = a == b

same_ref : ParentReference → ParentReference → Bool
unfolding obj_equal
same_ref a b =
    obj_equal a.group b.group
    && obj_equal a.kind b.kind
    && (a.name == b.name)
    && obj_equal a.namespace b.namespace

same_conditions : List Condition → List Condition → Bool
same_conditions [] [] = true
same_conditions [] (d ∷ ds) = false
same_conditions (c ∷ cs) [] = false
same_conditions (c ∷ cs) (d ∷ ds) =
    (c.kind == d.kind) && (c.status == d.status) && (c.reason == d.reason) && same_conditions cs ds

pub same_ancestor : AncestorStatus → AncestorStatus → Bool
unfolding same_ref same_conditions
same_ancestor a b =
    same_ref a.ancestor_ref b.ancestor_ref
    && (a.controller_name == b.controller_name)
    && same_conditions a.conditions b.conditions

unfoldable pub ancestors_equal : List AncestorStatus → List AncestorStatus → Bool
unfolding same_ancestor
ancestors_equal [] [] = true
ancestors_equal [] (b ∷ bs) = false
ancestors_equal (a ∷ xs) [] = false
ancestors_equal (a ∷ xs) (b ∷ bs) = same_ancestor a b && ancestors_equal xs bs

pub data PolicyOutcome (P : Type 0) : Type 0 where
  done : PolicyOutcome P
  update : P → PolicyOutcome P
  api_error : PolicyOutcome P

-- The update of a policy whose ancestors differ from those that were built.
unfoldable pub write_ancestors :
    {P : Type 0}
    → (List AncestorStatus → P)
    → List AncestorStatus
    → Option (List AncestorStatus)
    → PolicyOutcome P
unfolding ancestors_equal
write_ancestors with_ancestors old none = PolicyOutcome.api_error
write_ancestors with_ancestors old (some ancestors) =
    if ancestors_equal old ancestors
    then PolicyOutcome.done
    else PolicyOutcome.update (with_ancestors ancestors)

unfoldable pub service_with_ancestors : TorServicePolicy → List AncestorStatus → TorServicePolicy
service_with_ancestors p xs = record p { ancestors = xs }

unfoldable pub reconcile_service_policy :
    Client → ℕ → Fetched TorServicePolicy → PolicyOutcome TorServicePolicy
unfolding write_ancestors build_ancestors service_with_ancestors
reconcile_service_policy client now Fetched.not_found = PolicyOutcome.done
reconcile_service_policy client now Fetched.failed = PolicyOutcome.api_error
reconcile_service_policy client now (Fetched.found p) =
    write_ancestors (service_with_ancestors p) p.ancestors
      (build_ancestors client p.namespace p.generation now p.target_refs)

unfoldable pub auth_with_ancestors : TorClientAuthPolicy → List AncestorStatus → TorClientAuthPolicy
auth_with_ancestors p xs = record p { ancestors = xs }

unfoldable pub reconcile_client_auth_policy :
    Client → ℕ → Fetched TorClientAuthPolicy → PolicyOutcome TorClientAuthPolicy
unfolding write_ancestors build_ancestors auth_with_ancestors
reconcile_client_auth_policy client now Fetched.not_found = PolicyOutcome.done
reconcile_client_auth_policy client now Fetched.failed = PolicyOutcome.api_error
reconcile_client_auth_policy client now (Fetched.found p) =
    write_ancestors (auth_with_ancestors p) p.ancestors
      (build_ancestors client p.namespace p.generation now p.target_refs)
