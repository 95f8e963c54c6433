-- ===== src/Controller/Permitted.antt =====
-- internal/controller/httproute_controller.go: whether the backends of an HTTPRoute are permitted. The
-- API client is a parameter: the outcome of each Get, and of each List of grants.
pub mod Laws
use tor_gateway.Base.{
  String, Bool, true, false, Option, none, some, List, [], ◌∷◌, get_or, if◌then◌else◌, ◌==◌,
}
use tor_gateway.Api.{
  HttpBackendRef, HttpRouteRule, HttpRoute, ReferenceGrant, Gateway, GatewayClass, Fetched,
}
use tor_gateway.Controller.Grants.{FromRef, ToRef, allows}

abbrev pub gateway_api_group : String
gateway_api_group = "gateway.networking.k8s.io"

abbrev pub gateway_kind : String
gateway_kind = "Gateway"

-- What the API client answers: each function of the requested name, or namespace and name.
pub record Client : Type 0 where
  pub get_gateway : String → String → Fetched Gateway
  pub get_class : String → Fetched GatewayClass
  pub list_grants : String → Option (List ReferenceGrant)

abbrev pub from_route : String → FromRef
from_route route_ns = record { group = gateway_api_group; kind = "HTTPRoute"; namespace = route_ns }

abbrev pub to_service : String → ToRef
to_service name = record { group = ""; kind = "Service"; name = name }

-- One reference of the loop: none is an error, and some false refuses the route.
unfoldable pub allowed_by : String → String → Option (List ReferenceGrant) → Option Bool
unfolding allows
allowed_by route_ns name none = none
allowed_by route_ns name (some grants) =
    some (allows grants (from_route route_ns) (to_service name))

unfoldable pub ref_permitted : Client → String → HttpBackendRef → Option Bool
unfolding allowed_by
ref_permitted client route_ns bref =
    let ns = get_or bref.namespace route_ns in
    if ns == route_ns then some true else allowed_by route_ns bref.name (client.list_grants ns)

-- The loop stops at an error and at a refusal.
unfoldable pub and_then : Option Bool → Option Bool → Option Bool
and_then none rest = none
and_then (some false) rest = some false
and_then (some true) rest = rest

unfoldable pub refs_permitted : Client → String → List HttpBackendRef → Option Bool
unfolding ref_permitted and_then
refs_permitted client route_ns [] = some true
refs_permitted client route_ns (b ∷ bs) =
    and_then (ref_permitted client route_ns b) (refs_permitted client route_ns bs)

unfoldable pub rules_permitted : Client → String → List HttpRouteRule → Option Bool
unfolding refs_permitted and_then
rules_permitted client route_ns [] = some true
rules_permitted client route_ns (r ∷ rs) =
    and_then (refs_permitted client route_ns r.backend_refs) (rules_permitted client route_ns rs)

unfoldable pub backend_refs_permitted : Client → HttpRoute → Option Bool
unfolding rules_permitted
backend_refs_permitted client route = rules_permitted client route.namespace route.rules
