-- ===== src/Controller/Tests.antt =====
-- Runs of the grants, conditions and counts of internal/controller on concrete objects, and their
-- theorems at such inputs.
use tor_gateway.Base.{◌≡◌, refl, ◌↔◌, true, false, some, [], ◌∷◌, Memᴰ, map, if◌then◌else◌, ◌==◌}
use tor_gateway.Api.{Fetched}
use tor_gateway.Controller.Grants.{allows, IsGranted, allows_iff}
use tor_gateway.Controller.Conditions.{
  set_condition, ClassOutcome, accepted_cond, with_conditions, reconcile_class, controller_name,
}
use tor_gateway.Controller.Conditions.Merge.{
  find_condition, since, find_condition-set_condition, reconcile_class-settles,
}
use tor_gateway.Controller.Permitted.{from_route, to_service}
use tor_gateway.Controller.Attached.{
  AttachedOutcome, parent_ref_matches, update_gateway_attached_routes,
}
use tor_gateway.Controller.Attached.Exact.{
  attached_count, statuses_after, update_gateway_attached_routes-exact,
}
use tor_gateway.Controller.GrantWatch.{
  IsWatched, httproutes_for_reference_grant, httproutes_for_reference_grant_iff,
}
use tor_gateway.Controller.Samples.{
  two_backends, gateway, class_, grant, accepted_class, settled_route, counted_gateway, list_apps,
}

granted : allows (grant ∷ []) (from_route "apps") (to_service "db") ≡ true
unfolding allows
granted = refl

not_granted : allows (grant ∷ []) (from_route "other") (to_service "db") ≡ false
unfolding allows
not_granted = refl

allows_iff_example :
    (allows (grant ∷ []) (from_route "apps") (to_service "db") ≡ true)
    ↔ IsGranted (grant ∷ []) (from_route "apps") (to_service "db")
allows_iff_example = allows_iff (grant ∷ []) (from_route "apps") (to_service "db")

find_condition-set_condition_example :
    find_condition "Accepted" (set_condition [] (accepted_cond class_ 7)).0 ≡ (
      if (accepted_cond class_ 7).kind == "Accepted"
      then some (since (find_condition "Accepted" []) (accepted_cond class_ 7))
      else find_condition "Accepted" [])
find_condition-set_condition_example =
    find_condition-set_condition "Accepted" [] (accepted_cond class_ 7)

class_updated : reconcile_class (Fetched.found class_) 7 ≡ ClassOutcome.update accepted_class
unfolding reconcile_class
class_updated = refl

reconcile_class-settles_example :
    (class_.controller_name ≡ controller_name)
    × (accepted_class
        ≡ with_conditions class_ (set_condition class_.conditions (accepted_cond class_ 7)).0)
    × (reconcile_class (Fetched.found accepted_class) 20 ≡ ClassOutcome.done)
reconcile_class-settles_example = reconcile_class-settles class_ accepted_class 7 20 class_updated

one_attached : attached_count gateway "onion" "apps" (two_backends ∷ settled_route ∷ []) "http" ≡ 1
unfolding attached_count parent_ref_matches
one_attached = refl

update_gateway_attached_routes-exact_example :
    statuses_after gateway (
      update_gateway_attached_routes
        (Fetched.found gateway)
        (some (two_backends ∷ []))
        "onion"
        "apps")
    ≡ map
        (λ ls. record {
          name = ls.name;
          attached_routes = attached_count gateway "onion" "apps" (two_backends ∷ []) ls.name;
        })
        gateway.listener_statuses
update_gateway_attached_routes-exact_example =
    update_gateway_attached_routes-exact gateway "onion" "apps" (two_backends ∷ [])

gateway_counted :
    update_gateway_attached_routes (Fetched.found gateway) (some (two_backends ∷ [])) "onion" "apps"
    ≡ AttachedOutcome.update counted_gateway
unfolding update_gateway_attached_routes
gateway_counted = refl

one_request :
    httproutes_for_reference_grant list_apps grant
    ≡ record { namespace = "apps"; name = "shop" } ∷ []
unfolding httproutes_for_reference_grant
one_request = refl

httproutes_for_reference_grant_iff_example :
    Memᴰ
      (record { namespace = "apps"; name = "shop" })
      (httproutes_for_reference_grant list_apps grant)
    ↔ IsWatched list_apps grant.from (record { namespace = "apps"; name = "shop" })
httproutes_for_reference_grant_iff_example =
    httproutes_for_reference_grant_iff list_apps grant
      (record { namespace = "apps"; name = "shop" })
