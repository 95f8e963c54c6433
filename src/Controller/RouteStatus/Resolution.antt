-- ===== src/Controller/RouteStatus/Resolution.antt =====
-- From the status that internal/controller/httproute_controller.go writes to the reading of
-- internal/router/aggregate.go: the references of a permitted route are resolved.
use tor_gateway.Base.{
  ℕ, ◌≡◌, refl, sym, ap, ◌∙◌, inl, inr, String, Bool, true, false, Option, none, some, List, [],
  ◌∷◌, ◌++◌, Memᴰ, not, select, if◌then◌else◌, eq_iff, All, All-imp, All-select, Bool-cases,
}
use tor_gateway.Api.{NamespacedName, ParentReference, RouteParentStatus, HttpRoute}
use tor_gateway.Controller.Conditions.{controller_name}
use tor_gateway.Controller.Permitted.{Client, backend_refs_permitted}
use tor_gateway.Controller.RouteStatus.{
  Managed, is_foreign, with_parents, merged, merge_route_parent_statuses, route_parents_equal,
  parent_status, accepted_cond, resolved_cond, add_status, statuses_of, statuses_if,
  build_route_parent_statuses, parent_managed_by_us,
}
use tor_gateway.Controller.RouteStatus.Withdrawal.{IsOwnOrOther, statuses_of-All}
use tor_gateway.Router.Aggregate.{first_resolved, names_parent, resolved_in, refs_resolved_for}

abbrev IsOther : NamespacedName → String → RouteParentStatus → Type 0
IsOther gw route_ns p = names_parent gw route_ns p.parent_ref ≡ false

resolved_in-skip :
    (gw : NamespacedName) (route_ns : String) (ps qs : List RouteParentStatus)
    → All (IsOther gw route_ns) ps
    → resolved_in gw route_ns (ps ++ qs) ≡ resolved_in gw route_ns qs
unfolding resolved_in
resolved_in-skip gw route_ns [] qs h = refl
resolved_in-skip gw route_ns (p ∷ ps) qs h =
    rw (h.0, if◌then◌else◌) (resolved_in-skip gw route_ns ps qs h.1)

abbrev IsResolved : RouteParentStatus → Type 0
IsResolved p = first_resolved p.conditions ≡ some true

resolved_in-found :
    (gw : NamespacedName) (route_ns : String) (q : RouteParentStatus) (ps : List RouteParentStatus)
    → All IsResolved ps
    → Memᴰ q ps
    → names_parent gw route_ns q.parent_ref ≡ true
    → resolved_in gw route_ns ps ≡ true
unfolding resolved_in
resolved_in-found gw route_ns q [] h i e = elim i [ ]
resolved_in-found gw route_ns q (p ∷ ps) h (Memᴰ.head s) e =
    rw (ap (λ x. names_parent gw route_ns x.parent_ref) (sym s) ∙ e, h.0, if◌then◌else◌) refl
resolved_in-found gw route_ns q (p ∷ ps) h (Memᴰ.tail i) e =
    elim (Bool-cases (names_parent gw route_ns p.parent_ref)) [
      | inl d ↦ rw (d, h.0, if◌then◌else◌) refl
      | inr d ↦ rw (d, if◌then◌else◌) (resolved_in-found gw route_ns q ps h.1 i e)
    ]

parent_status-IsResolved :
    (generation now : ℕ) (pr : ParentReference) (listener_exists : Bool)
    → IsResolved (parent_status generation now true pr listener_exists)
unfolding parent_status first_resolved accepted_cond resolved_cond
parent_status-IsResolved generation now pr listener_exists = refl

add_status-managed :
    (status : Bool → RouteParentStatus) (m : Managed) (b : Bool)
    (rest : Option (List RouteParentStatus)) (out : List RouteParentStatus)
    → m ≡ Managed.managed b
    → add_status status m rest ≡ some out
    → Memᴰ (status b) out
unfolding add_status
add_status-managed status m b none out q e = absurd (cc (rw q at e))
add_status-managed status m b (some tail) out q e =
    let same : status b ∷ tail ≡ out = cc (rw q at e) in rw (← same) (Memᴰ.head refl)

add_status-keeps :
    (status : Bool → RouteParentStatus) (m : Managed) (rest : Option (List RouteParentStatus))
    (out : List RouteParentStatus) (p : RouteParentStatus)
    → ((tail : List RouteParentStatus) → rest ≡ some tail → Memᴰ p tail)
    → add_status status m rest ≡ some out
    → Memᴰ p out
unfolding add_status
add_status-keeps status Managed.get_error rest out p f e = absurd (cc e)
add_status-keeps status Managed.foreign rest out p f e = f out e
add_status-keeps status (Managed.managed b) none out p f e = absurd (cc e)
add_status-keeps status (Managed.managed b) (some tail) out p f e =
    let same : status b ∷ tail ≡ out = cc e in rw (← same) (Memᴰ.tail (f tail refl))

statuses_of-mem :
    (client : Client) (route : HttpRoute) (now : ℕ) (resolved : Bool) (prs : List ParentReference)
    (out : List RouteParentStatus) (pr : ParentReference) (b : Bool)
    → Memᴰ pr prs
    → parent_managed_by_us client pr route.namespace ≡ Managed.managed b
    → statuses_of client route now resolved prs ≡ some out
    → Memᴰ (parent_status route.generation now resolved pr b) out
unfolding statuses_of
statuses_of-mem client route now resolved [] out pr b i m e = elim i [ ]
statuses_of-mem client route now resolved (p ∷ prs) out pr b (Memᴰ.head s) m e = rw s (
    add_status-managed (parent_status route.generation now resolved p)
      (parent_managed_by_us client p route.namespace) b (statuses_of client route now resolved prs)
      out (ap (λ x. parent_managed_by_us client x route.namespace) (sym s) ∙ m) e)
statuses_of-mem client route now resolved (p ∷ prs) out pr b (Memᴰ.tail i) m e =
    add_status-keeps (parent_status route.generation now resolved p)
      (parent_managed_by_us client p route.namespace) (statuses_of client route now resolved prs)
      out (parent_status route.generation now resolved pr b)
      (λ tail. statuses_of-mem client route now resolved prs tail pr b i m) e

foreign-IsOther :
    (gw : NamespacedName) (route_ns : String) (p : RouteParentStatus)
    → IsOwnOrOther gw route_ns p × (is_foreign p ≡ true)
    → IsOther gw route_ns p
unfolding is_foreign
foreign-IsOther gw route_ns p (inl own, f) =
    absurd (cc (f, ap not ((eq_iff p.controller_name controller_name).1 own)))
foreign-IsOther gw route_ns p (inr other, f) = other

merged-resolved :
    (gw : NamespacedName) (route_ns : String) (ps desired : List RouteParentStatus)
    (q : RouteParentStatus)
    → All (IsOwnOrOther gw route_ns) ps
    → All IsResolved desired
    → Memᴰ q desired
    → names_parent gw route_ns q.parent_ref ≡ true
    → resolved_in gw route_ns (merged ps desired) ≡ true
unfolding merged
merged-resolved gw route_ns ps desired q others h i e =
    resolved_in-skip gw route_ns (select is_foreign ps) desired (
      All-imp _ (IsOther gw route_ns) (select is_foreign ps) (foreign-IsOther gw route_ns)
        (All-select (IsOwnOrOther gw route_ns) is_foreign ps others))
    ∙ resolved_in-found gw route_ns q desired h i e

merge-updated :
    (route : HttpRoute) (desired : List RouteParentStatus)
    → (merge_route_parent_statuses route desired).1 ≡ true
    → (merge_route_parent_statuses route desired).0
      ≡ with_parents route (merged route.parents desired)
unfolding merge_route_parent_statuses
merge-updated route desired e =
    elim (Bool-cases (route_parents_equal route.parents (merged route.parents desired))) [
      | inl d ↦ absurd (cc (rw (d, if◌then◌else◌) at e))
      | inr d ↦ rw (d, if◌then◌else◌) refl
    ]

-- When the operator updates the status of a permitted route that has a managed Gateway for a parent,
-- the router finds the route's references resolved for that Gateway, if no entry of another
-- controller names it.
pub merge_route_parent_statuses-resolves :
    (client : Client) (route : HttpRoute) (now : ℕ) (desired : List RouteParentStatus)
    (gw : NamespacedName) (pr : ParentReference) (listener_exists : Bool)
    → backend_refs_permitted client route ≡ some true
    → build_route_parent_statuses client route now ≡ some desired
    → All (IsOwnOrOther gw route.namespace) route.parents
    → Memᴰ pr route.parent_refs
    → parent_managed_by_us client pr route.namespace ≡ Managed.managed listener_exists
    → names_parent gw route.namespace pr ≡ true
    → (merge_route_parent_statuses route desired).1 ≡ true
    → refs_resolved_for (merge_route_parent_statuses route desired).0 gw ≡ true
unfolding refs_resolved_for with_parents build_route_parent_statuses statuses_if parent_status
merge_route_parent_statuses-resolves client route now desired gw pr b permitted e others i m named
      changed =
    let built = rw permitted at e in
    rw (merge-updated route desired changed) (
      merged-resolved gw route.namespace route.parents desired
        (parent_status route.generation now true pr b) others
        (statuses_of-All IsResolved client route now true route.parent_refs desired
          (parent_status-IsResolved route.generation now) built)
        (statuses_of-mem client route now true route.parent_refs desired pr b i m built) named)
