-- ===== src/Controller/RouteReconcile/Complete.antt =====
-- What a run of the reconciler of internal/controller/httproute_controller.go that ends without an
-- error has written.
use tor_gateway.Base.{
  ℕ, ◌≡◌, refl, sym, ap, inl, inr, String, Bool, true, false, Option, none, some, List, [], ◌∷◌,
  Memᴰ, if◌then◌else◌, Bool-cases, All, All-imp,
}
use tor_gateway.Api.{RouteParentStatus, HttpRoute, Fetched}
use tor_gateway.Controller.RouteStatus.{build_route_parent_statuses, merge_route_parent_statuses}
use tor_gateway.Controller.Attached.{AttachedOutcome}
use tor_gateway.Controller.RouteReconcile.{
  StatusUpdate, Cluster, Run, and_update, after_attached, attached_outcome, recount_parents,
  reconcile_parents, reconcile_found, reconcile,
}

-- The update that a count asks for is among the updates; a count that failed has none.
abbrev pub IsCarriedOut : AttachedOutcome → List StatusUpdate → Type 0
IsCarriedOut AttachedOutcome.done us = Unit
IsCarriedOut AttachedOutcome.api_error us = ⊥
IsCarriedOut (AttachedOutcome.update gw) us = Memᴰ (StatusUpdate.gateway_status gw) us

-- A merge that changed the route is among the updates.
abbrev pub IsWritten : HttpRoute × Bool → List StatusUpdate → Type 0
IsWritten (route, true) us = Memᴰ (StatusUpdate.route_status route) us
IsWritten (route, false) us = Unit

-- The statuses were built, merged and written, and each Gateway of theirs was counted and written.
pub record IsReconciled (cluster : Cluster) (route : HttpRoute) (now : ℕ) (us : List StatusUpdate)
    : Type 0 where
  pub parents : List RouteParentStatus
  pub built : build_route_parent_statuses cluster.client route now ≡ some parents
  pub written : IsWritten (merge_route_parent_statuses route parents) us
  pub recounted : All (λ p. IsCarriedOut (attached_outcome cluster route.namespace p) us) parents

carried-there :
    (o : AttachedOutcome) (u : StatusUpdate) (us : List StatusUpdate)
    → IsCarriedOut o us
    → IsCarriedOut o (u ∷ us)
carried-there AttachedOutcome.done u us h = tt
carried-there AttachedOutcome.api_error u us h = h
carried-there (AttachedOutcome.update gw) u us h = Memᴰ.tail h

and_update_inv :
    (cluster : Cluster) (u : StatusUpdate) (rest : Run) (us : List StatusUpdate)
    → and_update cluster u rest ≡ (us, true)
    → (rest.1 ≡ true) × (us ≡ u ∷ rest.0)
unfolding and_update
and_update_inv cluster u rest us h = elim (Bool-cases (cluster.accepts u)) [
  | inl e ↦ let r = rw (e, if◌then◌else◌) at h in (ap (λ x. x.1) r, sym (ap (λ x. x.0) r))
  | inr e ↦ let r = rw (e, if◌then◌else◌) at h in absurd (cc (ap (λ (x : Run). x.1) r))
]

after_attached_inv :
    (cluster : Cluster) (o : AttachedOutcome) (rest : Run) (us : List StatusUpdate)
    → after_attached cluster o rest ≡ (us, true)
    → IsCarriedOut o us
      × (rest.1 ≡ true)
      × ((o' : AttachedOutcome) → IsCarriedOut o' rest.0 → IsCarriedOut o' us)
unfolding after_attached
after_attached_inv cluster AttachedOutcome.done rest us h =
    (tt, ap (λ x. x.1) h, λ o' c. let same : rest.0 ≡ us = ap (λ x. x.0) h in rw (← same) c)
after_attached_inv cluster AttachedOutcome.api_error rest us h =
    absurd (cc (ap (λ (x : Run). x.1) h))
after_attached_inv cluster (AttachedOutcome.update gw) rest us h =
    let (ok, same) = and_update_inv cluster (StatusUpdate.gateway_status gw) rest us h in
    (
      rw same (Memᴰ.head refl),
      ok,
      λ o' c. rw same (carried-there o' (StatusUpdate.gateway_status gw) rest.0 c),
    )

run-eta : (r : Run) → r.1 ≡ true → r ≡ (r.0, true)
run-eta r e = λ i. (r.0, e i)

recount_parents-carried :
    (cluster : Cluster) (route_ns : String) (ps : List RouteParentStatus) (us : List StatusUpdate)
    → recount_parents cluster route_ns ps ≡ (us, true)
    → All (λ p. IsCarriedOut (attached_outcome cluster route_ns p) us) ps
unfolding recount_parents
recount_parents-carried cluster route_ns [] us h = tt
recount_parents-carried cluster route_ns (p ∷ ps) us h =
    let rest = recount_parents cluster route_ns ps in
    let (c, ok, keep) =
      after_attached_inv cluster (attached_outcome cluster route_ns p) rest us h in
    (
      c,
      All-imp _ (λ q. IsCarriedOut (attached_outcome cluster route_ns q) us) ps
          (λ q. keep (attached_outcome cluster route_ns q))
          (recount_parents-carried cluster route_ns ps rest.0 (run-eta rest ok)),
    )

reconcile_merged :
    (cluster : Cluster) (route_ns : String) (parents : List RouteParentStatus)
    (merged : HttpRoute × Bool) (us : List StatusUpdate)
    → (if merged.1
        then and_update cluster
            (StatusUpdate.route_status merged.0)
            (recount_parents cluster route_ns parents)
        else recount_parents cluster route_ns parents)
      ≡ (us, true)
    → IsWritten merged us × All (λ p. IsCarriedOut (attached_outcome cluster route_ns p) us) parents
reconcile_merged cluster route_ns parents (route, false) us h =
    (tt, recount_parents-carried cluster route_ns parents us h)
reconcile_merged cluster route_ns parents (route, true) us h =
    let rest = recount_parents cluster route_ns parents in
    let (ok, same) = and_update_inv cluster (StatusUpdate.route_status route) rest us h in
    (
      rw same (Memᴰ.head refl),
      All-imp _ (λ q. IsCarriedOut (attached_outcome cluster route_ns q) us) parents
          (λ q c. rw same (
            carried-there (attached_outcome cluster route_ns q) (StatusUpdate.route_status route)
              rest.0 c))
          (recount_parents-carried cluster route_ns parents rest.0 (run-eta rest ok)),
    )

reconcile_parents-IsReconciled :
    (cluster : Cluster) (route : HttpRoute) (now : ℕ) (o : Option (List RouteParentStatus))
    (us : List StatusUpdate)
    → build_route_parent_statuses cluster.client route now ≡ o
    → reconcile_parents cluster route o ≡ (us, true)
    → IsReconciled cluster route now us
unfolding reconcile_parents
reconcile_parents-IsReconciled cluster route now none us e h = absurd (cc (ap (λ (x : Run). x.1) h))
reconcile_parents-IsReconciled cluster route now (some parents) us e h =
    let (w, r) =
      reconcile_merged cluster route.namespace parents (merge_route_parent_statuses route parents)
        us h in
    record { parents = parents; built = e; written = w; recounted = r }

-- A run that finds the route and ends without an error has built the statuses, written the merge if
-- it changed the route, and counted every Gateway of the statuses and written the counts that
-- changed.
pub reconcile-IsReconciled :
    (cluster : Cluster) (route : HttpRoute) (now : ℕ) (us : List StatusUpdate)
    → cluster.get_route ≡ Fetched.found route
    → reconcile cluster now ≡ (us, true)
    → IsReconciled cluster route now us
unfolding reconcile reconcile_found
reconcile-IsReconciled cluster route now us found h =
    reconcile_parents-IsReconciled cluster route now
      (build_route_parent_statuses cluster.client route now) us refl (rw found at h)
