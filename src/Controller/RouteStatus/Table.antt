-- ===== src/Controller/RouteStatus/Table.antt =====
-- What the routes that internal/controller/httproute_controller.go refuses have in the table of internal/router/aggregate.go.
use tor_gateway.Base.{
  ℕ, ◌≡◌, refl, ap, ◌∙◌, inl, inr, false, some, List, [], ◌∷◌, Memᴰ, if◌then◌else◌, All, Bool-cases,
}
use tor_gateway.Base.Memᴰ
use tor_gateway.Api.{NamespacedName, RouteParentStatus, HttpRoute}
use tor_gateway.Controller.Permitted.{Client, backend_refs_permitted}
use tor_gateway.Controller.RouteStatus.{
  with_parents, merged, merge_route_parent_statuses, route_parents_equal,
  build_route_parent_statuses,
}
use tor_gateway.Controller.RouteStatus.Withdrawal.{
  IsOwnOrOther, merge_route_parent_statuses-withdraws,
}
use tor_gateway.Router.Match.{Backend, Rule}
use tor_gateway.Router.Aggregate.{refs_resolved_for, rules_for_gateway}
use tor_gateway.Router.Aggregate.Safety.{rules_for_gateway-IsAuthorised}

merge_route_parent_statuses-namespace :
    (route : HttpRoute) (desired : List RouteParentStatus)
    → (merge_route_parent_statuses route desired).0.namespace ≡ route.namespace
unfolding merge_route_parent_statuses with_parents
merge_route_parent_statuses-namespace route desired =
    elim (Bool-cases (route_parents_equal route.parents (merged route.parents desired))) [
      | inl d ↦ rw (d, if◌then◌else◌) refl
      | inr d ↦ rw (d, if◌then◌else◌) refl
    ]

-- Once the statuses of a route that is not permitted are merged, it adds only backends of its own
-- namespace to the rules of a Gateway, if no entry of another controller names the Gateway.
pub rules_for_gateway-refused :
    (client : Client) (route : HttpRoute) (now : ℕ) (desired : List RouteParentStatus)
    (gw : NamespacedName) (r : Rule) (b : Backend)
    → backend_refs_permitted client route ≡ some false
    → build_route_parent_statuses client route now ≡ some desired
    → All (IsOwnOrOther gw route.namespace) route.parents
    → Memᴰ r (rules_for_gateway ((merge_route_parent_statuses route desired).0 ∷ []) gw)
    → Memᴰ b r.backends
    → b.namespace ≡ route.namespace
rules_for_gateway-refused client route now desired gw r b refused e others i j =
    let m = (merge_route_parent_statuses route desired).0 in
    let a = rules_for_gateway-IsAuthorised (m ∷ []) gw r b i j in
    let none_left =
      merge_route_parent_statuses-withdraws client route now desired gw refused e others in
    elim (Memᴰ.cases_cons a.listed) [
      | inl q ↦ elim a.permitted [
        | inl marked ↦ absurd (cc (marked, ap (λ x. refs_resolved_for x gw) q, none_left))
        | inr same ↦
            same ∙ ap (λ x. x.namespace) q ∙ merge_route_parent_statuses-namespace route desired
      ]
      | inr k ↦ absurd (Memᴰ.not-nil k)
    ]
