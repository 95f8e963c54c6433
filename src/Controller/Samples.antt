-- ===== src/Controller/Samples.antt =====
-- Concrete objects for the tests of the reconcilers of internal/controller.
use tor_gateway.Base.{
  Option, String, Bool, true, false, none, some, List, [], ◌∷◌, if◌then◌else◌, ◌==◌,
}
use tor_gateway.Api.{
  NamespacedName, ParentReference, RouteParentStatus, HttpBackendRef, HttpRoute, ReferenceGrant,
  Gateway, GatewayClass, Fetched,
}
use tor_gateway.Controller.Conditions.{accepted_cond, with_conditions, controller_name}
use tor_gateway.Controller.Permitted.{Client}
use tor_gateway.Controller.RouteStatus.{parent_status, merge_route_parent_statuses}
use tor_gateway.Controller.RouteReconcile.{StatusUpdate, Cluster}
use tor_gateway.Router.Match.{PathMatchType, Backend, Rule, slash}
use tor_gateway.Router.Aggregate.{rules_for_gateway}

abbrev pub to_gateway : ParentReference
to_gateway = record {
  group = none;
  kind = none;
  namespace = none;
  name = "onion";
  section_name = some "http";
}

abbrev pub web : HttpBackendRef
web = record { name = "web"; namespace = none; port = some 80 }

abbrev pub db : HttpBackendRef
db = record { name = "db"; namespace = some "data"; port = none }

abbrev pub foreign_entry : RouteParentStatus
foreign_entry = record {
  parent_ref = record {
    group = none;
    kind = none;
    namespace = none;
    name = "other";
    section_name = none;
  };
  controller_name = "example.org/controller";
  conditions = [];
}

abbrev pub two_backends : HttpRoute
two_backends = record {
  name = "shop";
  namespace = "apps";
  generation = 3;
  parent_refs = to_gateway ∷ [];
  rules = record { matches = []; backend_refs = web ∷ db ∷ [] } ∷ [];
  parents = foreign_entry ∷ [];
}

abbrev pub gateway : Gateway
gateway = record {
  name = "onion";
  namespace = "apps";
  uid = "uid-1";
  class_name = "tor";
  listeners = "http" ∷ "admin" ∷ [];
  listener_statuses =
      record { name = "http"; attached_routes = 0 }
      ∷ record { name = "gone"; attached_routes = 4 }
      ∷ [];
}

abbrev pub class_ : GatewayClass
class_ = record { name = "tor"; controller_name = controller_name; generation = 1; conditions = [] }

abbrev pub grant : ReferenceGrant
grant = record {
  namespace = "data";
  from =
      record { group = "gateway.networking.k8s.io"; kind = "HTTPRoute"; namespace = "apps" } ∷ [];
  to = record { group = ""; kind = "Service"; name = none } ∷ [];
}

abbrev pub client_with : List ReferenceGrant → Client
client_with grants = record {
  get_gateway = λ ns name. Fetched.found gateway;
  get_class = λ name. Fetched.found class_;
  list_grants = λ ns. some grants;
}

abbrev pub onion : NamespacedName
onion = record { namespace = "apps"; name = "onion" }

abbrev pub statuses : Bool → List RouteParentStatus
statuses resolved = parent_status 3 100 resolved to_gateway true ∷ []

abbrev pub accepted_class : GatewayClass
accepted_class = with_conditions class_ (accepted_cond class_ 7 ∷ [])

abbrev pub web_only : Rule
web_only = record {
  matches = record { path = record { kind = PathMatchType.path_prefix; value = slash } } ∷ [];
  backends = record { namespace = "apps"; name = "web"; port = 80 } ∷ [];
}

abbrev pub web_backend : Backend
web_backend = record { namespace = "apps"; name = "web"; port = 80 }

abbrev pub table_after : List Rule
table_after =
    rules_for_gateway ((merge_route_parent_statuses two_backends (statuses false)).0 ∷ []) onion

abbrev pub settled_route : HttpRoute
settled_route = record {
  name = "shop";
  namespace = "apps";
  generation = 4;
  parent_refs =
      record {
        group = none;
        kind = none;
        namespace = some "edge";
        name = "onion";
        section_name = some "http";
      }
      ∷ [];
  rules = [];
  parents = statuses true;
}

abbrev pub counted_gateway : Gateway
counted_gateway = record {
  name = "onion";
  namespace = "apps";
  uid = "uid-1";
  class_name = "tor";
  listeners = "http" ∷ "admin" ∷ [];
  listener_statuses =
      record { name = "http"; attached_routes = 1 }
      ∷ record { name = "gone"; attached_routes = 0 }
      ∷ [];
}

abbrev pub cluster : Cluster
cluster = record {
  client = client_with (grant ∷ []);
  get_route = Fetched.found two_backends;
  list_routes = some (two_backends ∷ []);
  accepts = λ u. true;
}

abbrev pub updates : List StatusUpdate
updates =
    StatusUpdate.route_status (merge_route_parent_statuses two_backends (statuses true)).0
    ∷ StatusUpdate.gateway_status counted_gateway
    ∷ []

abbrev pub list_apps : String → Option (List HttpRoute)
list_apps ns = if ns == "apps" then some (two_backends ∷ []) else none
