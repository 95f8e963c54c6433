-- ===== src/Router/Aggregate.antt =====
-- internal/router/aggregate.go: the rules of every HTTPRoute of a Gateway, less what is not
-- authorised.
pub mod Safety
pub mod Complete
use tor_gateway.Base.{
  ℕ, String, Bool, true, false, Option, none, some, List, [], ◌∷◌, ◌++◌, map, select, if◌then◌else◌,
  get_or, ◌==◌, ◌&&◌,
}
use tor_gateway.Api.{NamespacedName, Condition, ParentReference, RouteParentStatus, HttpRoute}
use tor_gateway.Router.Match.{Backend, Rule}
use tor_gateway.Router.Convert.{rules_from_http_route}

-- `kind != nil && *kind != want` is a mismatch.
abbrev unset_or : Option String → String → Bool
unset_or none want = true
unset_or (some s) want = s == want

unfoldable pub parent_targets : NamespacedName → String → ParentReference → Bool
parent_targets gw route_ns ref =
    (ref.name == gw.name)
    && unset_or ref.kind "Gateway"
    && unset_or ref.group "gateway.networking.k8s.io"
    && (get_or ref.namespace route_ns == gw.namespace)

any_targets : NamespacedName → String → List ParentReference → Bool
unfolding parent_targets
any_targets gw route_ns [] = false
any_targets gw route_ns (ref ∷ refs) =
    if parent_targets gw route_ns ref then true else any_targets gw route_ns refs

unfoldable pub route_targets_gateway : HttpRoute → NamespacedName → Bool
unfolding any_targets
route_targets_gateway route gw = any_targets gw route.namespace route.parent_refs

-- The loop over the conditions: the first ResolvedRefs decides, and none leaves it open.
unfoldable pub first_resolved : List Condition → Option Bool
first_resolved [] = none
first_resolved (c ∷ cs) =
    if c.kind == "ResolvedRefs" then some (c.status == "True") else first_resolved cs

unfoldable pub names_parent : NamespacedName → String → ParentReference → Bool
names_parent gw route_ns ref =
    (ref.name == gw.name) && (get_or ref.namespace route_ns == gw.namespace)

unfoldable pub resolved_in : NamespacedName → String → List RouteParentStatus → Bool
unfolding names_parent first_resolved
resolved_in gw route_ns [] = false
resolved_in gw route_ns (p ∷ ps) =
    if names_parent gw route_ns p.parent_ref
    then get_or (first_resolved p.conditions) (resolved_in gw route_ns ps)
    else resolved_in gw route_ns ps

unfoldable pub refs_resolved_for : HttpRoute → NamespacedName → Bool
unfolding resolved_in
refs_resolved_for route gw = resolved_in gw route.namespace route.parents

abbrev same_namespace : String → Backend → Bool
same_namespace route_ns b = b.namespace == route_ns

abbrev keep_same_namespace : String → Rule → Rule
keep_same_namespace route_ns r = record {
  matches = r.matches;
  backends = select (same_namespace route_ns) r.backends;
}

unfoldable pub drop_cross_ns_backends : List Rule → String → List Rule
drop_cross_ns_backends rules route_ns = map (keep_same_namespace route_ns) rules

-- What one route adds.
unfoldable pub route_rules : NamespacedName → HttpRoute → List Rule
unfolding drop_cross_ns_backends
route_rules gw route =
    if refs_resolved_for route gw
    then rules_from_http_route route
    else drop_cross_ns_backends (rules_from_http_route route) route.namespace

unfoldable pub rules_for_gateway : List HttpRoute → NamespacedName → List Rule
unfolding route_targets_gateway route_rules refs_resolved_for
rules_for_gateway [] gw = []
rules_for_gateway (route ∷ routes) gw =
    if route_targets_gateway route gw
    then route_rules gw route ++ rules_for_gateway routes gw
    else rules_for_gateway routes gw
