-- ===== src/Controller/GrantWatch.antt =====
-- internal/controller/httproute_controller.go: the routes to reconcile when a ReferenceGrant changes.
-- The listing of a namespace is a parameter, none when it fails.
use tor_gateway.Base.{
  ◌≡◌, refl, sym, ap, ◌∙◌, ◌↔◌, inl, inr, String, Bool, true, false, Option, none, some, List, [],
  ◌∷◌, ◌++◌, map, any, Memᴰ, if◌then◌else◌, ◌&&◌, ◌==◌, eq_iff, Bool-cases,
}
use tor_gateway.Base.Memᴰ
use tor_gateway.Api.{NamespacedName, HttpRoute, GrantFrom, ReferenceGrant}

abbrev request_of : HttpRoute → NamespacedName
request_of route = record { namespace = route.namespace; name = route.name }

-- A listing that fails adds nothing.
abbrev pub requests_in : Option (List HttpRoute) → List NamespacedName
requests_in none = []
requests_in (some routes) = map request_of routes

abbrev pub is_route_entry : GrantFrom → Bool
is_route_entry f = (f.group == "gateway.networking.k8s.io") && (f.kind == "HTTPRoute")

-- The loop over the entries, with the namespaces seen.
unfoldable pub requests_for :
    (String → Option (List HttpRoute)) → List String → List GrantFrom → List NamespacedName
requests_for list_routes seen [] = []
requests_for list_routes seen (f ∷ fs) =
    if is_route_entry f
    then (if any (λ ns. ns == f.namespace) seen
        then requests_for list_routes seen fs
        else requests_in (list_routes f.namespace)
          ++ requests_for list_routes (f.namespace ∷ seen) fs)
    else requests_for list_routes seen fs

unfoldable pub httproutes_for_reference_grant :
    (String → Option (List HttpRoute)) → ReferenceGrant → List NamespacedName
unfolding requests_for
httproutes_for_reference_grant list_routes grant = requests_for list_routes [] grant.from

-- A request for a route that is listed in the namespace of an entry for HTTPRoutes.
pub record IsWatched (list_routes : String → Option (List HttpRoute)) (fs : List GrantFrom)
    (x : NamespacedName) : Type 0 where
  pub entry : GrantFrom
  pub of_grant : Memᴰ entry fs
  pub for_routes : is_route_entry entry ≡ true
  pub listed : Memᴰ x (requests_in (list_routes entry.namespace))

module _ (list_routes : String → Option (List HttpRoute)) (x : NamespacedName) where
  IsWatched-there :
      (f : GrantFrom) (fs : List GrantFrom)
      → IsWatched list_routes fs x
      → IsWatched list_routes (f ∷ fs) x
  IsWatched-there f fs w = record {
    entry = w.entry;
    of_grant = Memᴰ.tail w.of_grant;
    for_routes = w.for_routes;
    listed = w.listed;
  }

  requests_for-IsWatched :
      (seen : List String) (fs : List GrantFrom)
      → Memᴰ x (requests_for list_routes seen fs)
      → IsWatched list_routes fs x
  unfolding requests_for
  requests_for-IsWatched seen [] m = absurd (Memᴰ.not-nil m)
  requests_for-IsWatched seen (f ∷ fs) m = elim (Bool-cases (is_route_entry f)) [
    | inl e ↦ elim (Bool-cases (any (λ ns. ns == f.namespace) seen)) [
      | inl d ↦
          IsWatched-there f fs (requests_for-IsWatched seen fs (rw (e, d, if◌then◌else◌) at m))
      | inr d ↦
          elim (Memᴰ.append_cases (requests_in (list_routes f.namespace))
            (rw (e, d, if◌then◌else◌) at m)) [
              | inl k ↦ record { entry = f; of_grant = Memᴰ.head refl; for_routes = e; listed = k }
              | inr k ↦ IsWatched-there f fs (requests_for-IsWatched (f.namespace ∷ seen) fs k)
            ]
    ]
    | inr e ↦ IsWatched-there f fs (requests_for-IsWatched seen fs (rw (e, if◌then◌else◌) at m))
  ]

  IsWatched-requests_for :
      (seen : List String) (fs : List GrantFrom) (entry : GrantFrom)
      → Memᴰ entry fs
      → is_route_entry entry ≡ true
      → any (λ ns. ns == entry.namespace) seen ≡ false
      → Memᴰ x (requests_in (list_routes entry.namespace))
      → Memᴰ x (requests_for list_routes seen fs)
  unfolding requests_for
  IsWatched-requests_for seen [] entry i w new l = elim i [ ]
  IsWatched-requests_for seen (f ∷ fs) entry (Memᴰ.head q) w new l =
      rw
        (
          ap (λ f. is_route_entry f) (sym q) ∙ w,
          ap (λ f. any (λ ns. ns == f.namespace) seen) (sym q) ∙ new,
          if◌then◌else◌,
        )
        (Memᴰ.append_left {s = requests_in (list_routes f.namespace)} _
          (rw (ap (λ f. f.namespace) (sym q)) l))
  IsWatched-requests_for seen (f ∷ fs) entry (Memᴰ.tail i) w new l =
      elim (Bool-cases (is_route_entry f)) [
        | inl e ↦ elim (Bool-cases (any (λ ns. ns == f.namespace) seen)) [
          | inl d ↦ rw (e, d, if◌then◌else◌) (IsWatched-requests_for seen fs entry i w new l)
          | inr d ↦
              rw (e, d, if◌then◌else◌)
                (elim (Bool-cases (f.namespace == entry.namespace)) [
                  | inl s ↦
                      Memᴰ.append_left {s = requests_in (list_routes f.namespace)} _
                        (rw ((eq_iff f.namespace entry.namespace).0 s) l)
                  | inr s ↦ Memᴰ.append_right (requests_in (list_routes f.namespace)) (
                      IsWatched-requests_for (f.namespace ∷ seen) fs entry i w (rw (s, new) refl) l)
                ])
        ]
        | inr e ↦ rw (e, if◌then◌else◌) (IsWatched-requests_for seen fs entry i w new l)
      ]

-- A change of a grant asks to reconcile exactly the routes that are listed in the namespace of an
-- entry for HTTPRoutes.
pub httproutes_for_reference_grant_iff :
    (list_routes : String → Option (List HttpRoute)) (grant : ReferenceGrant) (x : NamespacedName)
    → Memᴰ x (httproutes_for_reference_grant list_routes grant) ↔ IsWatched list_routes grant.from x
unfolding httproutes_for_reference_grant
httproutes_for_reference_grant_iff list_routes grant x = (
  requests_for-IsWatched list_routes x [] grant.from,
  λ w.
      IsWatched-requests_for list_routes x [] grant.from w.entry w.of_grant w.for_routes refl
        w.listed,
)
