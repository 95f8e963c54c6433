-- ===== src/Controller/PolicyStatus/Settles.antt =====
-- Repeated runs of the policy reconcilers of internal/controller.
use tor_gateway.Base.{
  ℕ, ◌≡◌, refl, String, true, Option, none, some, List, [], ◌∷◌, if◌then◌else◌, ◌==◌, eq_iff,
  Bool-cases, inl, inr,
}
use tor_gateway.Api.{Condition, Fetched}
use tor_gateway.Controller.Conditions.{controller_name}
use tor_gateway.Controller.Permitted.{Client}
use tor_gateway.Controller.Policies.{
  TargetRef, AncestorStatus, TorServicePolicy, TorClientAuthPolicy,
}
use tor_gateway.Controller.PolicyStatus.{
  Evaluated, PolicyOutcome, evaluate_policy_target, ancestor_of, accepted_cond, add_ancestor,
  build_ancestors, obj_equal, same_ref, same_conditions, same_ancestor, ancestors_equal,
  write_ancestors, service_with_ancestors, reconcile_service_policy, auth_with_ancestors,
  reconcile_client_auth_policy,
}

pub equal_refl : (s : String) → (s == s) ≡ true
equal_refl s = (eq_iff s s).1 refl

-- The conditions of two entries differ in what the comparison does not read.
pub same_ancestor-ancestor_of :
    (ref : TargetRef) (ns : String) (c d : Condition)
    → c.kind ≡ d.kind
    → c.status ≡ d.status
    → c.reason ≡ d.reason
    → same_ancestor (ancestor_of ref ns c) (ancestor_of ref ns d) ≡ true
unfolding same_ancestor same_ref same_conditions obj_equal ancestor_of
same_ancestor-ancestor_of ref ns c d k s r =
    rw
      (
        k,
        s,
        r,
        equal_refl ref.group,
        equal_refl ref.kind,
        equal_refl ref.name,
        equal_refl ns,
        equal_refl controller_name,
        equal_refl d.kind,
        equal_refl d.status,
        equal_refl d.reason,
      )
      refl

-- Two runs that both fail, or build lists that the comparison does not tell apart.
data IsSame : Option (List AncestorStatus) → Option (List AncestorStatus) → Type 0 where
  fail : IsSame none none
  build : {xs ys : List AncestorStatus} → ancestors_equal xs ys ≡ true → IsSame (some xs) (some ys)

add_ancestor-IsSame :
    (ref : TargetRef) (ns : String) (g g' t t' : ℕ) (v : Evaluated)
    {o o' : Option (List AncestorStatus)}
    → IsSame o o'
    → IsSame
        (add_ancestor (ancestor_of ref ns) g t v o)
        (add_ancestor (ancestor_of ref ns) g' t' v o')
unfolding add_ancestor accepted_cond ancestors_equal
add_ancestor-IsSame ref ns g g' t t' Evaluated.get_error same = IsSame.fail
add_ancestor-IsSame ref ns g g' t t' (Evaluated.evaluated status reason message) IsSame.fail =
    IsSame.fail
add_ancestor-IsSame ref ns g g' t t' (Evaluated.evaluated status reason message) (IsSame.build e) =
    IsSame.build (
      rw
        (
          same_ancestor-ancestor_of ref ns (accepted_cond g t status reason message)
              (accepted_cond g' t' status reason message) refl refl refl,
          e,
        )
        refl)

build_ancestors-IsSame :
    (client : Client) (ns : String) (g g' t t' : ℕ) (refs : List TargetRef)
    → IsSame (build_ancestors client ns g t refs) (build_ancestors client ns g' t' refs)
unfolding build_ancestors ancestors_equal
build_ancestors-IsSame client ns g g' t t' [] = IsSame.build refl
build_ancestors-IsSame client ns g g' t t' (ref ∷ refs) =
    add_ancestor-IsSame ref ns g g' t t' (evaluate_policy_target client ref ns)
      (build_ancestors-IsSame client ns g g' t t' refs)

-- What a write leaves is not written again by a run that is the same.
write_ancestors-settles :
    {P : Type 0} (make : List AncestorStatus → P) (old : List AncestorStatus) (p : P)
    {o o' : Option (List AncestorStatus)}
    → IsSame o o'
    → write_ancestors make old o ≡ PolicyOutcome.update p
    → (xs : List AncestorStatus) × (p ≡ make xs)
      × ((make' : List AncestorStatus → P) → write_ancestors make' xs o' ≡ PolicyOutcome.done)
unfolding write_ancestors
write_ancestors-settles make old p IsSame.fail e = absurd (cc e)
write_ancestors-settles make old p (IsSame.build {xs = xs} same) e =
    elim (Bool-cases (ancestors_equal old xs)) [
      | inl h ↦ absurd (cc (rw (h, if◌then◌else◌) at e))
      | inr h ↦ (xs, cc (rw (h, if◌then◌else◌) at e), λ make'. rw (same, if◌then◌else◌) refl)
    ]

-- After a run of reconcile_service_policy that wrote a status, a later run on the written policy does
-- nothing, while the client answers the same; also when only the policy's generation has changed since.
pub reconcile_service_policy-settles :
    (client : Client) (now later generation : ℕ) (p q : TorServicePolicy)
    → reconcile_service_policy client now (Fetched.found p) ≡ PolicyOutcome.update q
    → reconcile_service_policy client later (Fetched.found (record q { generation = generation }))
      ≡ PolicyOutcome.done
unfolding reconcile_service_policy service_with_ancestors
reconcile_service_policy-settles client now later generation p q e =
    let (xs, same, settled) =
      write_ancestors-settles (service_with_ancestors p) p.ancestors q
        (build_ancestors-IsSame client p.namespace p.generation generation now later p.target_refs)
        e in
    rw same
      (settled (service_with_ancestors (record p { ancestors = xs; generation = generation })))

-- After a run of reconcile_client_auth_policy that wrote a status, a later run on the written policy does
-- nothing, while the client answers the same; also when only the policy's generation has changed since.
pub reconcile_client_auth_policy-settles :
    (client : Client) (now later generation : ℕ) (p q : TorClientAuthPolicy)
    → reconcile_client_auth_policy client now (Fetched.found p) ≡ PolicyOutcome.update q
    → reconcile_client_auth_policy client later
        (Fetched.found (record q { generation = generation }))
      ≡ PolicyOutcome.done
unfolding reconcile_client_auth_policy auth_with_ancestors
reconcile_client_auth_policy-settles client now later generation p q e =
    let (xs, same, settled) =
      write_ancestors-settles (auth_with_ancestors p) p.ancestors q
        (build_ancestors-IsSame client p.namespace p.generation generation now later p.target_refs)
        e in
    rw same (settled (auth_with_ancestors (record p { ancestors = xs; generation = generation })))
