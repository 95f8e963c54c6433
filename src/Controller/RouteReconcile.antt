-- ===== src/Controller/RouteReconcile.antt =====
-- internal/controller/httproute_controller.go: one run of the HTTPRoute reconciler. The answers of
-- the API client and the success of its updates are parameters, and the updates are a list.
pub mod Complete
use tor_gateway.Base.{
  ℕ, ◌≡◌, ◌≢◌, refl, sym, ap, ◌∙◌, ◌⊎◌, inl, inr, String, Bool, true, false, Option, none, some,
  List, [], ◌∷◌, Memᴰ, get_or, if◌then◌else◌, Bool-cases,
}
use tor_gateway.Base.Memᴰ
use tor_gateway.Api.{RouteParentStatus, HttpRoute, Gateway, Fetched}
use tor_gateway.Controller.Permitted.{Client}
use tor_gateway.Controller.RouteStatus.{build_route_parent_statuses, merge_route_parent_statuses}
use tor_gateway.Controller.Attached.{AttachedOutcome, update_gateway_attached_routes}

pub data StatusUpdate : Type 0 where
  route_status : HttpRoute → StatusUpdate
  gateway_status : Gateway → StatusUpdate

-- What the run reads, and whether an update succeeds.
pub record Cluster : Type 0 where
  pub client : Client
  pub get_route : Fetched HttpRoute
  pub list_routes : Option (List HttpRoute)
  pub accepts : StatusUpdate → Bool

-- The updates that the run asked for, and whether it ended without an error.
abbrev pub Run : Type 0
Run = List StatusUpdate × Bool

-- An update that fails is the last.
unfoldable pub and_update : Cluster → StatusUpdate → Run → Run
and_update cluster u rest = if cluster.accepts u then (u ∷ rest.0, rest.1) else (u ∷ [], false)

unfoldable pub after_attached : Cluster → AttachedOutcome → Run → Run
unfolding and_update
after_attached cluster AttachedOutcome.done rest = rest
after_attached cluster AttachedOutcome.api_error rest = ([], false)
after_attached cluster (AttachedOutcome.update gw) rest =
    and_update cluster (StatusUpdate.gateway_status gw) rest

-- The count of the Gateway of one parent.
unfoldable pub attached_outcome : Cluster → String → RouteParentStatus → AttachedOutcome
unfolding update_gateway_attached_routes
attached_outcome cluster route_ns p =
    let gw_ns = get_or p.parent_ref.namespace route_ns in
    update_gateway_attached_routes (cluster.client.get_gateway gw_ns p.parent_ref.name)
      cluster.list_routes p.parent_ref.name gw_ns

unfoldable pub recount_parents : Cluster → String → List RouteParentStatus → Run
unfolding attached_outcome after_attached
recount_parents cluster route_ns [] = ([], true)
recount_parents cluster route_ns (p ∷ ps) =
    after_attached cluster (attached_outcome cluster route_ns p)
      (recount_parents cluster route_ns ps)

unfoldable pub reconcile_parents : Cluster → HttpRoute → Option (List RouteParentStatus) → Run
unfolding merge_route_parent_statuses recount_parents and_update
reconcile_parents cluster route none = ([], false)
reconcile_parents cluster route (some parents) =
    let (route', changed) = merge_route_parent_statuses route parents in
    let recounted = recount_parents cluster route.namespace parents in
    if changed then and_update cluster (StatusUpdate.route_status route') recounted else recounted

unfoldable pub reconcile_found : Cluster → ℕ → Fetched HttpRoute → Run
unfolding build_route_parent_statuses reconcile_parents
reconcile_found cluster now Fetched.not_found = ([], true)
reconcile_found cluster now Fetched.failed = ([], false)
reconcile_found cluster now (Fetched.found route) =
    reconcile_parents cluster route (build_route_parent_statuses cluster.client route now)

unfoldable pub reconcile : Cluster → ℕ → Run
unfolding reconcile_found
reconcile cluster now = reconcile_found cluster now cluster.get_route
