-- ===== src/Router/Aggregate/Complete.antt =====
-- The backends that internal/router/aggregate.go keeps.
use tor_gateway.Base.{
  String, ◌≡◌, sym, ap, ◌∙◌, ◌⊎◌, ◌↔◌, inl, inr, true, List, [], ◌∷◌, Memᴰ, if◌then◌else◌, eq_iff,
  select-mem, Bool-cases,
}
use tor_gateway.Base.Memᴰ
use tor_gateway.Api.{NamespacedName, HttpBackendRef, HttpRouteRule, HttpRoute}
use tor_gateway.Router.Match.{Backend, Rule}
use tor_gateway.Router.Convert.{
  convert_rule, convert_backend, convert_backends, rules_from_http_route,
}
use tor_gateway.Router.Aggregate.{
  route_targets_gateway, refs_resolved_for, drop_cross_ns_backends, keep_same_namespace,
  route_rules, rules_for_gateway, same_namespace,
}
use tor_gateway.Router.Aggregate.Safety.{IsAuthorised, rules_for_gateway-IsAuthorised}

-- The backend stands in one of the rules.
abbrev pub IsBackendOf : Backend → List Rule → Type 0
IsBackendOf b rules = (r : Rule) × Memᴰ r rules × Memᴰ b r.backends

http_route_backend :
    (route : HttpRoute) (hr : HttpRouteRule) (ref : HttpBackendRef)
    → Memᴰ hr route.rules
    → Memᴰ ref hr.backend_refs
    → IsBackendOf (convert_backend route.namespace ref) (rules_from_http_route route)
unfolding rules_from_http_route convert_rule convert_backends
http_route_backend route hr ref i j = (
  convert_rule route.namespace hr,
  Memᴰ.map (convert_rule route.namespace) i,
  Memᴰ.map (convert_backend route.namespace) j,
)

kept_backend :
    (rules : List Rule) (ns : String) (b : Backend)
    → b.namespace ≡ ns
    → IsBackendOf b rules
    → IsBackendOf b (drop_cross_ns_backends rules ns)
unfolding drop_cross_ns_backends
kept_backend rules ns b same (r, i, j) = (
  keep_same_namespace ns r,
  Memᴰ.map (keep_same_namespace ns) i,
  select-mem (same_namespace ns) r.backends j ((eq_iff b.namespace ns).1 same),
)

route_rules_backend :
    (gw : NamespacedName) (route : HttpRoute) (b : Backend)
    → (refs_resolved_for route gw ≡ true) ⊎ (b.namespace ≡ route.namespace)
    → IsBackendOf b (rules_from_http_route route)
    → IsBackendOf b (route_rules gw route)
unfolding route_rules
route_rules_backend gw route b (inl e) k = rw (e, if◌then◌else◌) k
route_rules_backend gw route b (inr same) k = elim (Bool-cases (refs_resolved_for route gw)) [
  | inl e ↦ rw (e, if◌then◌else◌) k
  | inr e ↦ rw (e, if◌then◌else◌) (kept_backend _ route.namespace b same k)
]

gateway_backend :
    (gw : NamespacedName) (b : Backend) (route : HttpRoute) (routes : List HttpRoute)
    → Memᴰ route routes
    → route_targets_gateway route gw ≡ true
    → IsBackendOf b (route_rules gw route)
    → IsBackendOf b (rules_for_gateway routes gw)
unfolding rules_for_gateway
gateway_backend gw b route [] l t k = elim l [ ]
gateway_backend gw b route (q ∷ routes) (Memᴰ.head same) t (r, i, j) =
    rw (ap (λ (x : HttpRoute). route_targets_gateway x gw) (sym same) ∙ t, if◌then◌else◌)
      (r, Memᴰ.append_left {s = route_rules gw q} (rules_for_gateway routes gw) (rw same at i), j)
gateway_backend gw b route (q ∷ routes) (Memᴰ.tail l) t k =
    let (r, i, j) = gateway_backend gw b route routes l t k in
    elim (Bool-cases (route_targets_gateway q gw)) [
      | inl e ↦ rw (e, if◌then◌else◌) (r, Memᴰ.append_right (route_rules gw q) i, j)
      | inr e ↦ rw (e, if◌then◌else◌) (r, i, j)
    ]

IsAuthorised→IsBackendOf :
    (routes : List HttpRoute) (gw : NamespacedName) (b : Backend)
    → IsAuthorised routes gw b
    → IsBackendOf b (rules_for_gateway routes gw)
IsAuthorised→IsBackendOf routes gw b a = gateway_backend gw b a.route routes a.listed a.targets (
    route_rules_backend gw a.route b a.permitted
      (rw a.converted (http_route_backend a.route a.rule a.ref a.of_route a.of_rule)))

-- The backends in the rules of a Gateway are exactly the authorised ones: those that a reference of
-- a route for the Gateway names, in the route's namespace or with the route's references resolved.
pub rules_for_gateway_iff :
    (routes : List HttpRoute) (gw : NamespacedName) (b : Backend)
    → IsBackendOf b (rules_for_gateway routes gw) ↔ IsAuthorised routes gw b
rules_for_gateway_iff routes gw b = (
  λ (r, i, j). rules_for_gateway-IsAuthorised routes gw r b i j,
  IsAuthorised→IsBackendOf routes gw b,
)
