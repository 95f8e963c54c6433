-- ===== src/Controller/RouteStatus/Withdrawal.antt =====
-- From the status that internal/controller/httproute_controller.go writes to the table of
-- internal/router/aggregate.go: a refused route loses its backends in other namespaces.
use tor_gateway.Base.{
  ℕ, ◌≡◌, refl, sym, ap, ◌∙◌, ◌⊎◌, inl, inr, String, Bool, true, false, Option, none, some, List,
  [], ◌∷◌, not, select, if◌then◌else◌, ◌==◌, ◌&&◌, eq_iff, All, All-imp, All-append, All-select,
  Bool-cases, and_parts,
}
use tor_gateway.Api.{NamespacedName, Condition, ParentReference, RouteParentStatus, HttpRoute}
use tor_gateway.Controller.Conditions.{controller_name}
use tor_gateway.Controller.Permitted.{Client, backend_refs_permitted}
use tor_gateway.Controller.RouteStatus.{
  Managed, conditions_equal, route_parents_equal, is_foreign, with_parents, merged,
  merge_route_parent_statuses, parent_status, accepted_cond, resolved_cond, add_status, statuses_of,
  statuses_if, build_route_parent_statuses, parent_managed_by_us,
}
use tor_gateway.Router.Aggregate.{first_resolved, names_parent, resolved_in, refs_resolved_for}

-- An entry that gives the router no leave: of this Gateway and refused, or of another parent.
abbrev IsRefusal : NamespacedName → String → RouteParentStatus → Type 0
IsRefusal gw route_ns p =
    (names_parent gw route_ns p.parent_ref ≡ false) ⊎ (first_resolved p.conditions ≡ some false)

resolved_in-refused :
    (gw : NamespacedName) (route_ns : String) (ps : List RouteParentStatus)
    → All (IsRefusal gw route_ns) ps
    → resolved_in gw route_ns ps ≡ false
unfolding resolved_in
resolved_in-refused gw route_ns [] h = refl
resolved_in-refused gw route_ns (p ∷ ps) (inl e, h) =
    rw (e, if◌then◌else◌) (resolved_in-refused gw route_ns ps h)
resolved_in-refused gw route_ns (p ∷ ps) (inr e, h) =
    elim (Bool-cases (names_parent gw route_ns p.parent_ref)) [
      | inl d ↦ rw (d, e, if◌then◌else◌) refl
      | inr d ↦ rw (d, if◌then◌else◌) (resolved_in-refused gw route_ns ps h)
    ]

-- An entry that the operator writes for a refused route.
abbrev IsRefused : RouteParentStatus → Type 0
IsRefused p = (p.controller_name ≡ controller_name) × (first_resolved p.conditions ≡ some false)

parent_status-IsRefused :
    (generation now : ℕ) (pr : ParentReference) (listener_exists : Bool)
    → IsRefused (parent_status generation now false pr listener_exists)
unfolding parent_status first_resolved accepted_cond resolved_cond
parent_status-IsRefused generation now pr listener_exists = (refl, refl)

add_status-All :
    (P : RouteParentStatus → Type 0) (status : Bool → RouteParentStatus) (m : Managed)
    (rest : Option (List RouteParentStatus)) (out : List RouteParentStatus)
    → ((b : Bool) → P (status b))
    → ((tail : List RouteParentStatus) → rest ≡ some tail → All P tail)
    → add_status status m rest ≡ some out
    → All P out
unfolding add_status
add_status-All P status Managed.get_error rest out f h e = absurd (cc e)
add_status-All P status Managed.foreign rest out f h e = h out e
add_status-All P status (Managed.managed b) none out f h e = absurd (cc e)
add_status-All P status (Managed.managed b) (some tail) out f h e =
    let same : status b ∷ tail ≡ out = cc e in rw (← same) (f b, h tail refl)

pub statuses_of-All :
    (P : RouteParentStatus → Type 0) (client : Client) (route : HttpRoute) (now : ℕ)
    (resolved : Bool) (prs : List ParentReference) (out : List RouteParentStatus)
    → ((pr : ParentReference) (b : Bool) → P (parent_status route.generation now resolved pr b))
    → statuses_of client route now resolved prs ≡ some out
    → All P out
unfolding statuses_of
statuses_of-All P client route now resolved [] out f e = let q : [] ≡ out = cc e in rw (← q) tt
statuses_of-All P client route now resolved (pr ∷ prs) out f e =
    add_status-All P (parent_status route.generation now resolved pr)
      (parent_managed_by_us client pr route.namespace) (statuses_of client route now resolved prs)
      out (f pr) (λ tail. statuses_of-All P client route now resolved prs tail f) e

-- The router reads one answer from equal conditions.
first_resolved-equal :
    (cs ds : List Condition) → conditions_equal cs ds ≡ true → first_resolved cs ≡ first_resolved ds
unfolding conditions_equal first_resolved
first_resolved-equal [] [] h = refl
first_resolved-equal [] (d ∷ ds) h = absurd (cc h)
first_resolved-equal (c ∷ cs) [] h = absurd (cc h)
first_resolved-equal (c ∷ cs) (d ∷ ds) h =
    let (h', rest) =
      and_parts ((c.kind == d.kind) && (c.status == d.status) && (c.reason == d.reason))
        (conditions_equal cs ds) h in
    let (h'', r) =
      and_parts ((c.kind == d.kind) && (c.status == d.status)) (c.reason == d.reason) h' in
    let (k, s) = and_parts (c.kind == d.kind) (c.status == d.status) h'' in
    λ i.
      if (eq_iff c.kind d.kind).0 k i == "ResolvedRefs"
      then some ((eq_iff c.status d.status).0 s i == "True")
      else first_resolved-equal cs ds rest i

-- Own entries of another list are refused.
abbrev IsRefusedIfOwn : RouteParentStatus → Type 0
IsRefusedIfOwn q = (is_foreign q ≡ true) ⊎ IsRefused q

refused-own :
    (p q : RouteParentStatus)
    → p.controller_name ≡ controller_name
    → p.controller_name ≡ q.controller_name
    → first_resolved p.conditions ≡ first_resolved q.conditions
    → IsRefusedIfOwn q
    → first_resolved p.conditions ≡ some false
unfolding is_foreign
refused-own p q own same e (inl f) =
    let own' = (eq_iff q.controller_name controller_name).1 (sym same ∙ own) in
    absurd (cc (f, ap not own'))
refused-own p q own same e (inr r) = e ∙ r.1

-- An own entry of this operator, or one that does not name the Gateway.
abbrev pub IsOwnOrOther : NamespacedName → String → RouteParentStatus → Type 0
IsOwnOrOther gw route_ns p =
    (p.controller_name ≡ controller_name) ⊎ (names_parent gw route_ns p.parent_ref ≡ false)

equal-refusals :
    (gw : NamespacedName) (route_ns : String) (ps qs : List RouteParentStatus)
    → All (IsOwnOrOther gw route_ns) ps
    → All IsRefusedIfOwn qs
    → route_parents_equal ps qs ≡ true
    → All (IsRefusal gw route_ns) ps
unfolding route_parents_equal
equal-refusals gw route_ns [] qs h k e = tt
equal-refusals gw route_ns (p ∷ ps) [] h k e = absurd (cc e)
equal-refusals gw route_ns (p ∷ ps) (q ∷ qs) (inr other, h) (r, k) e =
    let (e', rest) = and_parts _ (route_parents_equal ps qs) e in
    (inl other, equal-refusals gw route_ns ps qs h k rest)
equal-refusals gw route_ns (p ∷ ps) (q ∷ qs) (inl own, h) (r, k) e =
    let names = p.parent_ref.name == q.parent_ref.name in
    let (e', rest) =
      and_parts
        ((p.controller_name == q.controller_name)
          && names
          && conditions_equal p.conditions q.conditions)
        (route_parents_equal ps qs) e in
    let (e'', same) =
      and_parts ((p.controller_name == q.controller_name) && names)
        (conditions_equal p.conditions q.conditions) e' in
    let (c, n) = and_parts (p.controller_name == q.controller_name) names e'' in
    (
      inr (
          refused-own p q own ((eq_iff p.controller_name q.controller_name).0 c)
            (first_resolved-equal p.conditions q.conditions same) r),
      equal-refusals gw route_ns ps qs h k rest,
    )

foreign-IsRefusal :
    (gw : NamespacedName) (route_ns : String) (p : RouteParentStatus)
    → IsOwnOrOther gw route_ns p × (is_foreign p ≡ true)
    → IsRefusal gw route_ns p
unfolding is_foreign
foreign-IsRefusal gw route_ns p (inl own, f) =
    absurd (cc (f, ap not ((eq_iff p.controller_name controller_name).1 own)))
foreign-IsRefusal gw route_ns p (inr other, f) = inl other

statuses_if-IsRefused :
    (client : Client) (route : HttpRoute) (now : ℕ) (desired : List RouteParentStatus)
    → backend_refs_permitted client route ≡ some false
    → build_route_parent_statuses client route now ≡ some desired
    → All IsRefused desired
unfolding build_route_parent_statuses statuses_if
statuses_if-IsRefused client route now desired refused e =
    statuses_of-All IsRefused client route now false route.parent_refs desired
      (parent_status-IsRefused route.generation now) (rw refused at e)

-- Once the statuses of a route that is not permitted are merged, the router does not find its
-- references resolved for any Gateway that no entry of another controller names.
pub merge_route_parent_statuses-withdraws :
    (client : Client) (route : HttpRoute) (now : ℕ) (desired : List RouteParentStatus)
    (gw : NamespacedName)
    → backend_refs_permitted client route ≡ some false
    → build_route_parent_statuses client route now ≡ some desired
    → All (IsOwnOrOther gw route.namespace) route.parents
    → refs_resolved_for (merge_route_parent_statuses route desired).0 gw ≡ false
unfolding merge_route_parent_statuses refs_resolved_for with_parents merged
merge_route_parent_statuses-withdraws client route now desired gw refused e others =
    let ns = route.namespace in
    let r = statuses_if-IsRefused client route now desired refused e in
    let kept = All-select (IsOwnOrOther gw ns) is_foreign route.parents others in
    elim (Bool-cases (route_parents_equal route.parents (merged route.parents desired))) [
      | inl d ↦
          rw (d, if◌then◌else◌)
            (resolved_in-refused gw ns route.parents (
              equal-refusals gw ns route.parents (merged route.parents desired) others
                (All-append IsRefusedIfOwn (select is_foreign route.parents) desired
                  (All-imp _ IsRefusedIfOwn (select is_foreign route.parents) (λ p f. inl f.1) kept)
                  (All-imp IsRefused IsRefusedIfOwn desired (λ p f. inr f) r))
                d))
      | inr d ↦
          rw (d, if◌then◌else◌)
            (resolved_in-refused gw ns (merged route.parents desired) (
              All-append (IsRefusal gw ns) (select is_foreign route.parents) desired
                (All-imp _ (IsRefusal gw ns) (select is_foreign route.parents)
                  (foreign-IsRefusal gw ns) kept)
                (All-imp IsRefused (IsRefusal gw ns) desired (λ p f. inr f.1) r)))
    ]
