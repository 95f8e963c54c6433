-- ===== src/Router/Convert.antt =====
-- internal/router/httproute.go: the rules of one HTTPRoute.
use tor_gateway.Base.{String, Option, none, some, List, [], ◌∷◌, map, if◌then◌else◌, get_or, ◌==◌}
use tor_gateway.Api.{HttpPathMatch, HttpRouteMatch, HttpBackendRef, HttpRouteRule, HttpRoute}
use tor_gateway.Router.Match.{PathMatchType, PathMatch, Match, Backend, Rule, slash}
use tor_gateway.Router.Match.{exact, path_prefix}

abbrev default_path : PathMatch
default_path = record { kind = path_prefix; value = slash }

convert_kind : Option String → PathMatchType
convert_kind none = path_prefix
convert_kind (some t) =
    if t == "Exact" then exact else if t == "PathPrefix" then path_prefix else path_prefix

convert_path : Option HttpPathMatch → PathMatch
unfolding convert_kind
convert_path none = default_path
convert_path (some p) = record { kind = convert_kind p.kind; value = get_or p.value slash }

convert_match : HttpRouteMatch → Match
unfolding convert_path
convert_match m = record { path = convert_path m.path }

convert_matches : List HttpRouteMatch → List Match
unfolding convert_match
convert_matches [] = record { path = default_path } ∷ []
convert_matches (m ∷ ms) = map convert_match (m ∷ ms)

abbrev pub convert_backend : String → HttpBackendRef → Backend
convert_backend route_ns ref = record {
  namespace = get_or ref.namespace route_ns;
  name = ref.name;
  port = get_or ref.port 0;
}

unfoldable pub convert_backends : List HttpBackendRef → String → List Backend
convert_backends refs route_ns = map (convert_backend route_ns) refs

unfoldable pub convert_rule : String → HttpRouteRule → Rule
unfolding convert_matches convert_backends
convert_rule route_ns hr = record {
  matches = convert_matches hr.matches;
  backends = convert_backends hr.backend_refs route_ns;
}

unfoldable pub rules_from_http_route : HttpRoute → List Rule
unfolding convert_rule
rules_from_http_route route = map (convert_rule route.namespace) route.rules
