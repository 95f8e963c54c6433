-- ===== src/Router/Proxy.antt =====
-- internal/router/resolver.go, proxy.go and sync.go: the handler, its table, and how the table
-- follows the HTTPRoutes. The listing of the routes is the API server's; its result is an argument.
pub mod Laws
pub mod Hosts
use tor_gateway.Base.{
  ℕ, String, Bool, true, false, Option, none, some, List, [], ◌∷◌, ◌++◌, Bytes, codes, decimal, eqb,
  if◌then◌else◌, ◌==◌, ◌||◌,
}
use tor_gateway.Api.{NamespacedName, HttpRoute}
use tor_gateway.Router.Match.{Backend, RouteTable, match_request, new_route_table}
use tor_gateway.Router.Aggregate.{rules_for_gateway}

pub record Url : Type 0 where
  pub scheme : String
  pub host : Bytes

-- `(*url.URL, bool)`
abbrev pub BackendResolver : Type 0
BackendResolver = Backend → Option Url × Bool

abbrev pub service_host : Backend → Bytes
service_host b =
    codes b.name ++ (b'.' ∷ (codes b.namespace ++ (b'.' ∷ (codes "svc:" ++ decimal b.port))))

unfoldable pub cluster_resolver : BackendResolver
cluster_resolver b =
    if (b.name == "") || (b.namespace == "") || eqb b.port 0
    then (none, false)
    else (some (record { scheme = "http"; host = service_host b }), true)

pub data Response : Type 0 where
  error : ℕ → String → Response
  proxied : Url → Response

pub record Proxy : Type 0 where
  pub resolve : BackendResolver
  pub table : Option RouteTable

unfoldable pub new_proxy : BackendResolver → Proxy
new_proxy resolve = record { resolve = resolve; table = none }

unfoldable pub set_table : RouteTable → Proxy → Proxy
set_table t p = record p { table = some t }

forward : Option Url × Bool → Response
forward (some target, true) = proxied target
forward (target, ok) = error 502 "backend unavailable"

serve_backend : BackendResolver → Option Backend → Response
unfolding forward
serve_backend resolve none = error 404 "no matching route"
serve_backend resolve (some b) = forward (resolve b)

serve_table : BackendResolver → Option RouteTable → Bytes → Response
unfolding serve_backend
serve_table resolve none path = error 404 "no routes configured"
serve_table resolve (some t) path = serve_backend resolve (match_request t path)

unfoldable pub serve_http : Proxy → Bytes → Response
unfolding serve_table
serve_http p path = serve_table p.resolve p.table path

-- `sync`, for the outcome of `List`: `none` is an error, which leaves the table.
unfoldable pub sync : NamespacedName → Option (List HttpRoute) → Proxy → Proxy × Bool
unfolding set_table new_route_table
sync gw none p = (p, false)
sync gw (some routes) p = (set_table (new_route_table (rules_for_gateway routes gw)) p, true)

-- The `rebuild` of every informer event, in order; an error is logged.
unfoldable pub rebuild_all : NamespacedName → List (Option (List HttpRoute)) → Proxy → Proxy
unfolding sync
rebuild_all gw [] p = p
rebuild_all gw (outcome ∷ outcomes) p = rebuild_all gw outcomes (sync gw outcome p).0
