-- ===== src/Controller/Conditions.antt =====
-- internal/controller/gatewayclass_controller.go: the merge of a condition into a status, and the
-- GatewayClass reconciler.
pub mod Merge
use tor_gateway.Base.{
  ℕ, ◌≡◌, refl, sym, ap, ◌∙◌, ◌↔◌, ◌≢◌, ◌⊎◌, inl, inr, String, Bool, true, false, Option, none,
  some, List, [], ◌∷◌, if◌then◌else◌, ◌&&◌, ◌==◌, eq_iff, eqb, eqb_iff, eqb_refl, and_parts,
  Bool-cases,
}
use tor_gateway.Api.{Condition, GatewayClass, Fetched}

abbrev pub controller_name : String
controller_name = "torgateway.io/gateway-controller"

unfoldable pub is_current : Condition → Condition → Bool
is_current existing cond =
    (existing.status == cond.status)
    && (existing.reason == cond.reason)
    && (existing.message == cond.message)
    && eqb existing.observed_generation cond.observed_generation

unfoldable pub at_time : ℕ → Condition → Condition
at_time t cond = record {
  kind = cond.kind;
  status = cond.status;
  reason = cond.reason;
  message = cond.message;
  observed_generation = cond.observed_generation;
  last_transition_time = t;
}

-- A condition whose status stays keeps the time of its last transition.
unfoldable pub keep_time : Condition → Condition → Condition
unfolding at_time
keep_time existing cond =
    if existing.status == cond.status then at_time existing.last_transition_time cond else cond

-- The list afterwards, and whether it changed.
unfoldable pub set_condition : List Condition → Condition → List Condition × Bool
unfolding is_current keep_time
set_condition [] cond = (cond ∷ [], true)
set_condition (c ∷ cs) cond =
    let rest = set_condition cs cond in
    if c.kind == cond.kind
    then if is_current c cond then (c ∷ cs, false) else (keep_time c cond ∷ cs, true)
    else (c ∷ rest.0, rest.1)

pub data ClassOutcome : Type 0 where
  done : ClassOutcome
  update : GatewayClass → ClassOutcome
  get_error : ClassOutcome

unfoldable pub accepted_cond : GatewayClass → ℕ → Condition
accepted_cond gc now = record {
  kind = "Accepted";
  status = "True";
  reason = "Accepted";
  message = "GatewayClass accepted by tor-gateway controller";
  observed_generation = gc.generation;
  last_transition_time = now;
}

unfoldable pub with_conditions : GatewayClass → List Condition → GatewayClass
with_conditions gc cs = record {
  name = gc.name;
  controller_name = gc.controller_name;
  generation = gc.generation;
  conditions = cs;
}

unfoldable pub accept_class : GatewayClass → ℕ → ClassOutcome
unfolding accepted_cond set_condition with_conditions
accept_class gc now =
    if gc.controller_name == controller_name
    then (let (cs, changed) = set_condition gc.conditions (accepted_cond gc now) in
        if changed then ClassOutcome.update (with_conditions gc cs) else ClassOutcome.done)
    else ClassOutcome.done

unfoldable pub reconcile_class : Fetched GatewayClass → ℕ → ClassOutcome
unfolding accept_class
reconcile_class (Fetched.found gc) now = accept_class gc now
reconcile_class Fetched.not_found now = ClassOutcome.done
reconcile_class Fetched.failed now = ClassOutcome.get_error
