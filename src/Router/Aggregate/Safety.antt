-- ===== src/Router/Aggregate/Safety.antt =====
-- Which backends internal/router/aggregate.go lets into the route table.
use tor_gateway.Base.{
  ◌≡◌, refl, sym, ◌⊎◌, inl, inr, true, List, [], ◌∷◌, Memᴰ, if◌then◌else◌, eq_iff, mem-select,
  Bool-cases,
}
use tor_gateway.Base.Memᴰ
use tor_gateway.Api.{NamespacedName, HttpBackendRef, HttpRouteRule, HttpRoute}
use tor_gateway.Router.Match.{Backend, Rule}
use tor_gateway.Router.Convert.{
  convert_rule, convert_backend, convert_backends, rules_from_http_route,
}
use tor_gateway.Router.Aggregate.{
  route_targets_gateway, refs_resolved_for, drop_cross_ns_backends, keep_same_namespace,
  route_rules, rules_for_gateway, same_namespace,
}

-- A backend of a route for the Gateway, which a reference of that route names, and which lies in the
-- route's namespace unless the route's references are marked resolved for the Gateway.
pub record IsAuthorised (routes : List HttpRoute) (gw : NamespacedName) (b : Backend) : Type 0 where
  pub route : HttpRoute
  pub listed : Memᴰ route routes
  pub targets : route_targets_gateway route gw ≡ true
  pub rule : HttpRouteRule
  pub of_route : Memᴰ rule route.rules
  pub ref : HttpBackendRef
  pub of_rule : Memᴰ ref rule.backend_refs
  pub converted : b ≡ convert_backend route.namespace ref
  pub permitted : (refs_resolved_for route gw ≡ true) ⊎ (b.namespace ≡ route.namespace)

record IsFromRoute (gw : NamespacedName) (route : HttpRoute) (b : Backend) : Type 0 where
  rule : HttpRouteRule
  of_route : Memᴰ rule route.rules
  ref : HttpBackendRef
  of_rule : Memᴰ ref rule.backend_refs
  converted : b ≡ convert_backend route.namespace ref

http_route-IsFromRoute :
    (gw : NamespacedName) (route : HttpRoute) (r : Rule) (b : Backend)
    → Memᴰ r (rules_from_http_route route)
    → Memᴰ b r.backends
    → IsFromRoute gw route b
unfolding rules_from_http_route convert_rule convert_backends
http_route-IsFromRoute gw route r b i j =
    let (hr, l, e) = Memᴰ.of_map (convert_rule route.namespace) route.rules i in
    let (ref, k, q) =
      Memᴰ.of_map (convert_backend route.namespace) hr.backend_refs (rw (← e) at j) in
    record { rule = hr; of_route = l; ref = ref; of_rule = k; converted = sym q }

route_rules-IsFromRoute :
    (gw : NamespacedName) (route : HttpRoute) (r : Rule) (b : Backend)
    → Memᴰ r (route_rules gw route)
    → Memᴰ b r.backends
    → IsFromRoute gw route b
      × ((refs_resolved_for route gw ≡ true) ⊎ (b.namespace ≡ route.namespace))
unfolding route_rules drop_cross_ns_backends
route_rules-IsFromRoute gw route r b i j = elim (Bool-cases (refs_resolved_for route gw)) [
  | inl e ↦ (http_route-IsFromRoute gw route r b (rw (e, if◌then◌else◌) at i) j, inl e)
  | inr e ↦
      let (r', l, q) =
        Memᴰ.of_map (keep_same_namespace route.namespace) (rules_from_http_route route)
          (rw (e, if◌then◌else◌) at i) in
      let (k, same) = mem-select (same_namespace route.namespace) r'.backends (rw (← q) at j) in
      (http_route-IsFromRoute gw route r' b l k, inr ((eq_iff b.namespace route.namespace).0 same))
]

IsAuthorised-there :
    (route : HttpRoute) (routes : List HttpRoute) (gw : NamespacedName) (b : Backend)
    → IsAuthorised routes gw b
    → IsAuthorised (route ∷ routes) gw b
IsAuthorised-there route routes gw b a = record {
  route = a.route;
  listed = Memᴰ.tail a.listed;
  targets = a.targets;
  rule = a.rule;
  of_route = a.of_route;
  ref = a.ref;
  of_rule = a.of_rule;
  converted = a.converted;
  permitted = a.permitted;
}

-- Every backend in the rules of a Gateway comes from a reference of a route that targets the
-- Gateway, and lies in that route's namespace unless the route's references are marked resolved.
pub rules_for_gateway-IsAuthorised :
    (routes : List HttpRoute) (gw : NamespacedName) (r : Rule) (b : Backend)
    → Memᴰ r (rules_for_gateway routes gw)
    → Memᴰ b r.backends
    → IsAuthorised routes gw b
unfolding rules_for_gateway
rules_for_gateway-IsAuthorised [] gw r b i j = absurd (Memᴰ.not-nil i)
rules_for_gateway-IsAuthorised (route ∷ routes) gw r b i j =
    elim (Bool-cases (route_targets_gateway route gw)) [
      | inl e ↦ elim (Memᴰ.append_cases (route_rules gw route) (rw (e, if◌then◌else◌) at i)) [
        | inl k ↦
            let (f, p) = route_rules-IsFromRoute gw route r b k j in
            record {
              route = route;
              listed = Memᴰ.head refl;
              targets = e;
              rule = f.rule;
              of_route = f.of_route;
              ref = f.ref;
              of_rule = f.of_rule;
              converted = f.converted;
              permitted = p;
            }
        | inr k ↦
            IsAuthorised-there route routes gw b (rules_for_gateway-IsAuthorised routes gw r b k j)
      ]
      | inr e ↦
          IsAuthorised-there route routes gw b
            (rules_for_gateway-IsAuthorised routes gw r b (rw (e, if◌then◌else◌) at i) j)
    ]
