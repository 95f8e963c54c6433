-- ===== src/Controller/Permitted/Laws.antt =====
-- The routes of which internal/controller/httproute_controller.go finds every backend permitted.
use tor_gateway.Base.{
  ◌≡◌, refl, ap, ◌↔◌, inl, inr, String, Bool, true, false, Option, none, some, List, [], ◌∷◌,
  get_or, if◌then◌else◌, ◌==◌, eq_iff, All, Bool-cases,
}
use tor_gateway.Api.{HttpBackendRef, HttpRouteRule, HttpRoute, ReferenceGrant}
use tor_gateway.Controller.Grants.{IsGranted, allows_iff}
use tor_gateway.Controller.Permitted.{
  Client, from_route, to_service, allowed_by, ref_permitted, and_then, refs_permitted,
  rules_permitted, backend_refs_permitted,
}

-- A reference into the route's namespace, or one that a grant of the other namespace permits.
pub data IsPermitted (client : Client) (route_ns : String) (bref : HttpBackendRef) : Type 0 where
  same : get_or bref.namespace route_ns ≡ route_ns → IsPermitted client route_ns bref
  granted :
      (grants : List ReferenceGrant)
      → client.list_grants (get_or bref.namespace route_ns) ≡ some grants
      → IsGranted grants (from_route route_ns) (to_service bref.name)
      → IsPermitted client route_ns bref

-- Every reference of every rule.
unfoldable pub AllPermitted : Client → HttpRoute → Type 0
AllPermitted client route =
    All (λ (r : HttpRouteRule). All (IsPermitted client route.namespace) r.backend_refs) route.rules

and_then_iff :
    (o rest : Option Bool) → (and_then o rest ≡ some true) ↔ ((o ≡ some true) × (rest ≡ some true))
unfolding and_then
and_then_iff none rest = (λ e. absurd (cc e), λ p. p.0)
and_then_iff (some false) rest = (λ e. absurd (cc e), λ p. p.0)
and_then_iff (some true) rest = (λ e. (refl, e), λ p. p.1)

allowed_by-IsPermitted :
    (client : Client) (route_ns : String) (bref : HttpBackendRef) (o : Option (List ReferenceGrant))
    → client.list_grants (get_or bref.namespace route_ns) ≡ o
    → allowed_by route_ns bref.name o ≡ some true
    → IsPermitted client route_ns bref
unfolding allowed_by
allowed_by-IsPermitted client route_ns bref none e h = absurd (cc h)
allowed_by-IsPermitted client route_ns bref (some grants) e h =
    IsPermitted.granted grants e
      ((allows_iff grants (from_route route_ns) (to_service bref.name)).0 (cc h))

IsPermitted-ref_permitted :
    (client : Client) (route_ns : String) (bref : HttpBackendRef)
    → IsPermitted client route_ns bref
    → ref_permitted client route_ns bref ≡ some true
unfolding ref_permitted allowed_by
IsPermitted-ref_permitted client route_ns bref (IsPermitted.same q) =
    rw ((eq_iff (get_or bref.namespace route_ns) route_ns).1 q, if◌then◌else◌) refl
IsPermitted-ref_permitted client route_ns bref (IsPermitted.granted grants e g) =
    let a = (allows_iff grants (from_route route_ns) (to_service bref.name)).1 g in
    elim (Bool-cases (get_or bref.namespace route_ns == route_ns)) [
      | inl d ↦ rw (d, if◌then◌else◌) refl
      | inr d ↦ rw (d, if◌then◌else◌, e) (ap some a)
    ]

ref_permitted_iff :
    (client : Client) (route_ns : String) (bref : HttpBackendRef)
    → (ref_permitted client route_ns bref ≡ some true) ↔ IsPermitted client route_ns bref
unfolding ref_permitted
ref_permitted_iff client route_ns bref =
    let ns = get_or bref.namespace route_ns in
    (
      λ h. elim (Bool-cases (ns == route_ns)) [
        | inl e ↦ IsPermitted.same ((eq_iff ns route_ns).0 e)
        | inr e ↦
            allowed_by-IsPermitted client route_ns bref (client.list_grants ns) refl
              (rw (e, if◌then◌else◌) at h)
      ],
      IsPermitted-ref_permitted client route_ns bref,
    )

refs_permitted_iff :
    (client : Client) (route_ns : String) (bs : List HttpBackendRef)
    → (refs_permitted client route_ns bs ≡ some true) ↔ All (IsPermitted client route_ns) bs
unfolding refs_permitted
refs_permitted_iff client route_ns [] = (λ e. tt, λ a. refl)
refs_permitted_iff client route_ns (b ∷ bs) =
    let both = and_then_iff (ref_permitted client route_ns b) (refs_permitted client route_ns bs) in
    let first = ref_permitted_iff client route_ns b in
    let rest = refs_permitted_iff client route_ns bs in
    (λ e. let (h, t) = both.0 e in (first.0 h, rest.0 t), λ a. both.1 (first.1 a.0, rest.1 a.1))

rules_permitted_iff :
    (client : Client) (route_ns : String) (rs : List HttpRouteRule)
    → (rules_permitted client route_ns rs ≡ some true)
      ↔ All (λ (r : HttpRouteRule). All (IsPermitted client route_ns) r.backend_refs) rs
unfolding rules_permitted
rules_permitted_iff client route_ns [] = (λ e. tt, λ a. refl)
rules_permitted_iff client route_ns (r ∷ rs) =
    let both =
      and_then_iff (refs_permitted client route_ns r.backend_refs)
        (rules_permitted client route_ns rs) in
    let first = refs_permitted_iff client route_ns r.backend_refs in
    let rest = rules_permitted_iff client route_ns rs in
    (λ e. let (h, t) = both.0 e in (first.0 h, rest.0 t), λ a. both.1 (first.1 a.0, rest.1 a.1))

-- The backends of a route are permitted, with no error, exactly when each lies in the route's
-- namespace or is granted by the grants that are listed in its own.
pub backend_refs_permitted_iff :
    (client : Client) (route : HttpRoute)
    → (backend_refs_permitted client route ≡ some true) ↔ AllPermitted client route
unfolding backend_refs_permitted AllPermitted
backend_refs_permitted_iff client route = rules_permitted_iff client route.namespace route.rules
