-- ===== src/Controller/RouteTests.antt =====
-- Runs of the HTTPRoute reconciler of internal/controller on concrete objects, and its theorems at
-- such inputs.
use tor_gateway.Base.{◌≡◌, refl, ◌↔◌, inr, true, false, some, [], ◌∷◌, Memᴰ, map, select}
use tor_gateway.Controller.Permitted.{backend_refs_permitted}
use tor_gateway.Controller.Permitted.Laws.{AllPermitted, backend_refs_permitted_iff}
use tor_gateway.Controller.RouteStatus.{
  Managed, is_foreign, parent_status, parent_managed_by_us, build_route_parent_statuses,
  merge_route_parent_statuses,
}
use tor_gateway.Controller.RouteStatus.Merge.{
  IsOwn, moved, merge_route_parent_statuses-foreign, merge_route_parent_statuses-again,
  merge_route_parent_statuses-moved,
}
use tor_gateway.Controller.RouteStatus.Table.{rules_for_gateway-refused}
use tor_gateway.Controller.RouteStatus.Resolution.{merge_route_parent_statuses-resolves}
use tor_gateway.Controller.RouteReconcile.{reconcile}
use tor_gateway.Controller.RouteReconcile.Complete.{IsReconciled, reconcile-IsReconciled}
use tor_gateway.Router.Convert.{rules_from_http_route}
use tor_gateway.Router.Aggregate.{names_parent, refs_resolved_for, rules_for_gateway}
use tor_gateway.Controller.Samples.{
  to_gateway, foreign_entry, two_backends, grant, client_with, onion, statuses, web_only,
  web_backend, table_after, settled_route, cluster, updates,
}

permitted_route : backend_refs_permitted (client_with (grant ∷ [])) two_backends ≡ some true
unfolding backend_refs_permitted
permitted_route = refl

refused_route : backend_refs_permitted (client_with []) two_backends ≡ some false
unfolding backend_refs_permitted
refused_route = refl

backend_refs_permitted_iff_example :
    (backend_refs_permitted (client_with (grant ∷ [])) two_backends ≡ some true)
    ↔ AllPermitted (client_with (grant ∷ [])) two_backends
backend_refs_permitted_iff_example =
    backend_refs_permitted_iff (client_with (grant ∷ [])) two_backends

refused_statuses :
    build_route_parent_statuses (client_with []) two_backends 100 ≡ some (statuses false)
unfolding build_route_parent_statuses
refused_statuses = refl

permitted_statuses :
    build_route_parent_statuses (client_with (grant ∷ [])) two_backends 100 ≡ some (statuses true)
unfolding build_route_parent_statuses
permitted_statuses = refl

other_parent : names_parent onion "apps" foreign_entry.parent_ref ≡ false
unfolding names_parent
other_parent = refl

one_rule : table_after ≡ web_only ∷ []
unfolding rules_for_gateway merge_route_parent_statuses parent_status rules_from_http_route
one_rule = refl

web_only-listed : Memᴰ web_only table_after
web_only-listed = rw one_rule (Memᴰ.head refl)

rules_for_gateway-refused_example : web_backend.namespace ≡ two_backends.namespace
rules_for_gateway-refused_example =
    rules_for_gateway-refused (client_with []) two_backends 100 (statuses false) onion web_only
      web_backend refused_route refused_statuses (inr other_parent, tt) web_only-listed
      (Memᴰ.head refl)

status_updated : (merge_route_parent_statuses two_backends (statuses true)).1 ≡ true
unfolding merge_route_parent_statuses
status_updated = refl

gateway_managed :
    parent_managed_by_us (client_with (grant ∷ [])) to_gateway "apps" ≡ Managed.managed true
unfolding parent_managed_by_us
gateway_managed = refl

parent_named : names_parent onion "apps" to_gateway ≡ true
unfolding names_parent
parent_named = refl

merge_route_parent_statuses-resolves_example :
    refs_resolved_for (merge_route_parent_statuses two_backends (statuses true)).0 onion ≡ true
merge_route_parent_statuses-resolves_example =
    merge_route_parent_statuses-resolves (client_with (grant ∷ [])) two_backends 100 (statuses true)
      onion to_gateway true permitted_route permitted_statuses (inr other_parent, tt)
      (Memᴰ.head refl) gateway_managed parent_named status_updated

statuses-IsOwn : IsOwn (parent_status 3 100 true to_gateway true)
unfolding parent_status
statuses-IsOwn = refl

merge_route_parent_statuses-foreign_example :
    select is_foreign (merge_route_parent_statuses two_backends (statuses true)).0.parents
    ≡ select is_foreign (foreign_entry ∷ [])
merge_route_parent_statuses-foreign_example =
    merge_route_parent_statuses-foreign two_backends (statuses true) (statuses-IsOwn, tt)

merge_route_parent_statuses-again_example :
    merge_route_parent_statuses
      (merge_route_parent_statuses two_backends (statuses true)).0
      (statuses true)
    ≡ ((merge_route_parent_statuses two_backends (statuses true)).0, false)
merge_route_parent_statuses-again_example =
    merge_route_parent_statuses-again two_backends (statuses true) (statuses-IsOwn, tt)

merge_route_parent_statuses-moved_example :
    merge_route_parent_statuses settled_route (map (moved (some "edge")) (statuses true))
    ≡ (settled_route, false)
merge_route_parent_statuses-moved_example =
    merge_route_parent_statuses-moved settled_route (some "edge") (statuses-IsOwn, tt)

two_updates : reconcile cluster 100 ≡ (updates, true)
unfolding reconcile merge_route_parent_statuses parent_status
two_updates = refl

reconcile-IsReconciled_example : IsReconciled cluster two_backends 100 updates
reconcile-IsReconciled_example =
    reconcile-IsReconciled cluster two_backends 100 updates refl two_updates
