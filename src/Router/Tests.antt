-- ===== src/Router/Tests.antt =====
-- Runs of the router of internal/router on concrete routes, and its theorems at such inputs.
use tor_gateway.Base.{
  ℕ, String, ◌≡◌, refl, ◌↔◌, true, false, none, some, List, [], ◌∷◌, ◌++◌, Memᴰ, Bytes, bytes_eq,
  codes, decimal, arith,
}
use tor_gateway.Api.{
  NamespacedName, ParentReference, RouteParentStatus, HttpBackendRef, HttpRouteRule, HttpRoute,
}
use tor_gateway.Router.Match.{
  Match, Backend, RouteTable, exact, path_prefix, match_request, path_matches, slash,
}
use tor_gateway.Router.Match.Precedence.{candidates, IsChoice, match_request-IsChoice}
use tor_gateway.Router.Match.Precedence.Members.{IsCandidate}
use tor_gateway.Router.Match.Precedence.Exact.{IsExactChoice, match_request-exact}
use tor_gateway.Router.Match.Segments.{
  IsSegmentPrefix, split_path, path_matches-segments_iff, path_matches-trailing_slash,
}
use tor_gateway.Router.Convert.{rules_from_http_route}
use tor_gateway.Router.Aggregate.{rules_for_gateway}
use tor_gateway.Router.Aggregate.Safety.{IsAuthorised}
use tor_gateway.Router.Aggregate.Complete.{IsBackendOf, rules_for_gateway_iff}
use tor_gateway.Router.Proxy.{
  Url, Proxy, error, proxied, new_proxy, serve_http, rebuild_all, cluster_resolver,
}
use tor_gateway.Router.Proxy.Laws.{
  IsSafeTarget, last_listing, table_of, rebuild_all-new_proxy, serve_http-IsSafeTarget,
  serve_http-404_iff,
}
use tor_gateway.Router.Proxy.Hosts.{cluster_resolver_injective}

abbrev blog : Backend
blog = record { namespace = "apps"; name = "blog"; port = 80 }

abbrev api : Backend
api = record { namespace = "apps"; name = "api"; port = 8080 }

abbrev prefix_match : Bytes → Match
prefix_match v = record { path = record { kind = path_prefix; value = v } }

abbrev exact_match : Bytes → Match
exact_match v = record { path = record { kind = exact; value = v } }

abbrev two_rules : RouteTable
two_rules = record {
  rules =
      record {
        matches = prefix_match (codes "/") ∷ prefix_match (codes "/api") ∷ [];
        backends = blog ∷ [];
      }
      ∷ record { matches = exact_match (codes "/api/v1") ∷ []; backends = api ∷ [] }
      ∷ [];
}

exact_chosen : match_request two_rules (codes "/api/v1") ≡ some api
unfolding match_request bytes_eq
exact_chosen = refl

prefix_chosen : match_request two_rules (codes "/api/v2") ≡ some blog
unfolding match_request bytes_eq
prefix_chosen = refl

not_a_segment :
    path_matches (record { kind = path_prefix; value = codes "/api" }) (codes "/apiv2") ≡ false
unfolding path_matches bytes_eq
not_a_segment = refl

match_request-IsChoice_example :
    IsChoice
      (candidates (codes "/api/v1") two_rules.rules)
      (match_request two_rules (codes "/api/v1"))
match_request-IsChoice_example = match_request-IsChoice two_rules (codes "/api/v1")

match_request-exact_example :
    (chosen : Backend) × (match_request two_rules (codes "/api/v1") ≡ some chosen)
    × IsExactChoice two_rules (codes "/api/v1") chosen
match_request-exact_example =
    match_request-exact two_rules (codes "/api/v1")
      (record { matches = exact_match (codes "/api/v1") ∷ []; backends = api ∷ [] }) api []
      (exact_match (codes "/api/v1")) (Memᴰ.tail (Memᴰ.head refl)) refl (Memᴰ.head refl) refl refl

path_matches-segments_iff_example :
    (path_matches (record { kind = path_prefix; value = codes "/api" }) (codes "/api/v1") ≡ true)
    ↔ IsSegmentPrefix (split_path (codes "/api")) (split_path (codes "/api/v1"))
path_matches-segments_iff_example =
    path_matches-segments_iff (codes "/api") (codes "/api/v1") (λ e. cc)

path_matches-trailing_slash_example :
    path_matches
      (record { kind = path_prefix; value = codes "/api" ++ slash })
      (codes "/api" ++ b'/' ∷ b'v' ∷ codes "1")
    ≡ false
path_matches-trailing_slash_example =
    path_matches-trailing_slash (codes "/api") b'v' (codes "1") (λ e. cc) (λ e. omega arith)

abbrev gateway : NamespacedName
gateway = record { namespace = "apps"; name = "onion" }

abbrev parent : ParentReference
parent = record { group = none; kind = none; namespace = none; name = "onion"; section_name = none }

abbrev resolved : String → RouteParentStatus
resolved status = record {
  parent_ref = parent;
  controller_name = "torgateway.io/gateway-controller";
  conditions =
      record {
        kind = "ResolvedRefs";
        status = status;
        reason = "";
        message = "";
        observed_generation = 1;
        last_transition_time = 0;
      }
      ∷ [];
}

abbrev foreign_ref : HttpBackendRef
foreign_ref = record { name = "vault"; namespace = some "secrets"; port = some 8200 }

abbrev local_ref : HttpBackendRef
local_ref = record { name = "blog"; namespace = none; port = some 80 }

abbrev local_rule : HttpRouteRule
local_rule = record { matches = []; backend_refs = local_ref ∷ [] }

abbrev foreign_rule : HttpRouteRule
foreign_rule = record {
  matches =
      record { path = some (record { kind = some "Exact"; value = some (codes "/vault") }) } ∷ [];
  backend_refs = foreign_ref ∷ [];
}

abbrev sample_route : String → HttpRoute
sample_route status = record {
  name = "site";
  namespace = "apps";
  generation = 1;
  parent_refs = parent ∷ [];
  rules = local_rule ∷ foreign_rule ∷ [];
  parents = resolved status ∷ [];
}

abbrev synced : String → Proxy
synced status =
    rebuild_all gateway (none ∷ some (sample_route status ∷ []) ∷ none ∷ [])
      (new_proxy cluster_resolver)

abbrev vault_url : Url
vault_url = record { scheme = "http"; host = codes "vault.secrets.svc:8200" }

abbrev blog_url : Url
blog_url = record { scheme = "http"; host = codes "blog.apps.svc:80" }

authorised_is_served : serve_http (synced "True") (codes "/vault") ≡ proxied vault_url
unfolding serve_http rebuild_all new_proxy match_request rules_for_gateway rules_from_http_route
    cluster_resolver decimal bytes_eq
authorised_is_served = refl

-- Without the grant the request falls back to the rule in the route's own namespace.
denied_falls_back : serve_http (synced "False") (codes "/vault") ≡ proxied blog_url
unfolding serve_http rebuild_all new_proxy match_request rules_for_gateway rules_from_http_route
    cluster_resolver decimal bytes_eq
denied_falls_back = refl

serve_http-IsSafeTarget_example :
    (routes : List HttpRoute) × (last_listing
        (none ∷ some (sample_route "True" ∷ []) ∷ none ∷ [])
        none
      ≡ some routes)
    × IsSafeTarget cluster_resolver gateway routes (codes "/vault") vault_url
serve_http-IsSafeTarget_example =
    serve_http-IsSafeTarget gateway (none ∷ some (sample_route "True" ∷ []) ∷ none ∷ [])
      cluster_resolver (codes "/vault") vault_url authorised_is_served

serve_http-404_iff_example :
    (serve_http (synced "True") (codes "") ≡ error 404 "no matching route") ↔ (
      (s : ℕ) (b : Backend)
      → ¬ IsCandidate (codes "") (rules_for_gateway (sample_route "True" ∷ []) gateway) s b)
serve_http-404_iff_example =
    serve_http-404_iff gateway (none ∷ some (sample_route "True" ∷ []) ∷ none ∷ []) cluster_resolver
      (codes "") (sample_route "True" ∷ []) refl

rules_for_gateway_iff_example :
    IsBackendOf blog (rules_for_gateway (sample_route "False" ∷ []) gateway)
    ↔ IsAuthorised (sample_route "False" ∷ []) gateway blog
rules_for_gateway_iff_example = rules_for_gateway_iff (sample_route "False" ∷ []) gateway blog

rebuild_all-new_proxy_example :
    ((synced "True").table
      ≡ table_of gateway (last_listing (none ∷ some (sample_route "True" ∷ []) ∷ none ∷ []) none))
    × ((synced "True").resolve ≡ cluster_resolver)
rebuild_all-new_proxy_example =
    rebuild_all-new_proxy gateway (none ∷ some (sample_route "True" ∷ []) ∷ none ∷ [])
      cluster_resolver

blog_resolves : cluster_resolver blog ≡ (some blog_url, true)
unfolding cluster_resolver decimal
blog_resolves = refl

cluster_resolver_injective_example : blog ≡ blog
cluster_resolver_injective_example =
    cluster_resolver_injective blog blog blog_url (omega arith) (omega arith) (omega arith)
      (omega arith) blog_resolves blog_resolves
