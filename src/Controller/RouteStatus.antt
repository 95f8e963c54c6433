-- ===== src/Controller/RouteStatus.antt =====
-- internal/controller/httproute_controller.go: the status that the operator writes for the parents of
-- an HTTPRoute.
pub mod Merge
pub mod Withdrawal
pub mod Table
pub mod Resolution
use tor_gateway.Base.{
  ℕ, String, Bool, true, false, Option, none, some, List, [], ◌∷◌, ◌++◌, any, select, length,
  get_or, not, if◌then◌else◌, ◌&&◌, ◌||◌, ◌==◌, eqb,
}
use tor_gateway.Api.{
  Condition, ParentReference, RouteParentStatus, HttpRoute, Gateway, GatewayClass, Fetched,
}
use tor_gateway.Controller.Permitted.{
  gateway_api_group, gateway_kind, Client, backend_refs_permitted,
}
use tor_gateway.Controller.Conditions.{controller_name}

-- Whether the Gateway is managed, and whether the section names one of its listeners.
pub data Managed : Type 0 where
  foreign : Managed
  managed : Bool → Managed
  get_error : Managed

has_listener : Gateway → Option String → Bool
has_listener gw none = true
has_listener gw (some section) = any (λ l. l == section) gw.listeners

managed_by_class : Gateway → Option String → Fetched GatewayClass → Managed
unfolding has_listener
managed_by_class gw section (Fetched.found gc) =
    if gc.controller_name == controller_name
    then Managed.managed (has_listener gw section)
    else Managed.foreign
managed_by_class gw section Fetched.not_found = Managed.foreign
managed_by_class gw section Fetched.failed = Managed.get_error

managed_gateway : Client → Option String → Fetched Gateway → Managed
unfolding managed_by_class
managed_gateway client section (Fetched.found gw) =
    managed_by_class gw section (client.get_class gw.class_name)
managed_gateway client section Fetched.not_found = Managed.foreign
managed_gateway client section Fetched.failed = Managed.get_error

unfoldable pub parent_managed_by_us : Client → ParentReference → String → Managed
unfolding managed_gateway
parent_managed_by_us client pr default_ns =
    if (get_or pr.group gateway_api_group == gateway_api_group)
      && (get_or pr.kind gateway_kind == gateway_kind)
    then managed_gateway client pr.section_name
        (client.get_gateway (get_or pr.namespace default_ns) pr.name)
    else Managed.foreign

unfoldable pub accepted_cond : ℕ → ℕ → Bool → Condition
accepted_cond generation now listener_exists = record {
  kind = "Accepted";
  status = if listener_exists then "True" else "False";
  reason = if listener_exists then "Accepted" else "NoMatchingParent";
  message =
      if listener_exists
      then "Route accepted by tor-gateway"
      else "ParentRef sectionName does not match any listener";
  observed_generation = generation;
  last_transition_time = now;
}

unfoldable pub resolved_cond : ℕ → ℕ → Bool → Condition
resolved_cond generation now resolved = record {
  kind = "ResolvedRefs";
  status = if resolved then "True" else "False";
  reason = if resolved then "ResolvedRefs" else "RefNotPermitted";
  message =
      if resolved
      then "All backendRefs resolved"
      else "A cross-namespace backendRef is not permitted by any ReferenceGrant";
  observed_generation = generation;
  last_transition_time = now;
}

unfoldable pub parent_status : ℕ → ℕ → Bool → ParentReference → Bool → RouteParentStatus
unfolding accepted_cond resolved_cond
parent_status generation now resolved pr listener_exists = record {
  parent_ref = pr;
  controller_name = controller_name;
  conditions =
      accepted_cond generation now listener_exists ∷ resolved_cond generation now resolved ∷ [];
}

-- The entries so far of the loop over the parents, whose errors end it.
unfoldable pub add_status :
    (Bool → RouteParentStatus)
    → Managed
    → Option (List RouteParentStatus)
    → Option (List RouteParentStatus)
add_status status Managed.get_error rest = none
add_status status Managed.foreign rest = rest
add_status status (Managed.managed listener_exists) none = none
add_status status (Managed.managed listener_exists) (some out) = some (status listener_exists ∷ out)

unfoldable pub statuses_of :
    Client → HttpRoute → ℕ → Bool → List ParentReference → Option (List RouteParentStatus)
unfolding add_status parent_managed_by_us parent_status
statuses_of client route now resolved [] = some []
statuses_of client route now resolved (pr ∷ prs) =
    add_status (parent_status route.generation now resolved pr)
      (parent_managed_by_us client pr route.namespace) (statuses_of client route now resolved prs)

unfoldable pub statuses_if : Client → HttpRoute → ℕ → Option Bool → Option (List RouteParentStatus)
unfolding statuses_of
statuses_if client route now none = none
statuses_if client route now (some resolved) =
    statuses_of client route now resolved route.parent_refs

unfoldable pub build_route_parent_statuses :
    Client → HttpRoute → ℕ → Option (List RouteParentStatus)
unfolding statuses_if backend_refs_permitted
build_route_parent_statuses client route now =
    statuses_if client route now (backend_refs_permitted client route)

unfoldable pub conditions_equal : List Condition → List Condition → Bool
conditions_equal [] [] = true
conditions_equal [] (d ∷ ds) = false
conditions_equal (c ∷ cs) [] = false
conditions_equal (c ∷ cs) (d ∷ ds) =
    (c.kind == d.kind) && (c.status == d.status) && (c.reason == d.reason) && conditions_equal cs ds

unfoldable pub route_parents_equal : List RouteParentStatus → List RouteParentStatus → Bool
unfolding conditions_equal
route_parents_equal [] [] = true
route_parents_equal [] (q ∷ qs) = false
route_parents_equal (p ∷ ps) [] = false
route_parents_equal (p ∷ ps) (q ∷ qs) =
    (p.controller_name == q.controller_name)
    && (p.parent_ref.name == q.parent_ref.name)
    && conditions_equal p.conditions q.conditions
    && route_parents_equal ps qs

unfoldable pub is_foreign : RouteParentStatus → Bool
is_foreign p = not (p.controller_name == controller_name)

unfoldable pub with_parents : HttpRoute → List RouteParentStatus → HttpRoute
with_parents route ps = record {
  name = route.name;
  namespace = route.namespace;
  generation = route.generation;
  parent_refs = route.parent_refs;
  rules = route.rules;
  parents = ps;
}

-- The entries of other controllers, then the operator's own.
unfoldable pub merged : List RouteParentStatus → List RouteParentStatus → List RouteParentStatus
unfolding is_foreign
merged parents desired = select is_foreign parents ++ desired

unfoldable pub merge_route_parent_statuses : HttpRoute → List RouteParentStatus → HttpRoute × Bool
unfolding merged route_parents_equal with_parents
merge_route_parent_statuses route desired =
    if route_parents_equal route.parents (merged route.parents desired)
    then (route, false)
    else (with_parents route (merged route.parents desired), true)
