-- ===== src/Controller/Attached/Exact.antt =====
-- The listener statuses that internal/controller/httproute_controller.go writes.
use tor_gateway.Base.{
  ℕ, ◌%◌, ◌≡◌, refl, sym, ap, ◌∙◌, inl, inr, String, true, false, some, List, [], ◌∷◌, map, get_or,
  if◌then◌else◌, eqb, eqb_iff, eqb_refl, Bool-cases, arith,
}
use tor_gateway.Api.{HttpRoute, ListenerStatus, Gateway, Fetched}
use tor_gateway.Controller.Attached.{
  Counts, lookup, recount, zero_counts, count_routes, set_attached, AttachedOutcome, with_statuses,
  attach, update_gateway_attached_routes,
}
use tor_gateway.Controller.Attached.Count.{
  all_hits, has_name, count_routes-lookup, count_routes-absent, zero_counts-lookup,
}

-- The references of the routes that attach to a listener of the Gateway, as an int32.
unfoldable pub attached_count : Gateway → String → String → List HttpRoute → String → ℕ
unfolding all_hits
attached_count gw gw_name gw_ns routes k =
    if has_name k gw.listeners then all_hits gw_name gw_ns k routes % 0x100000000 else 0

abbrev final_counts : Gateway → String → String → List HttpRoute → Counts
final_counts gw gw_name gw_ns routes = count_routes gw_name gw_ns (zero_counts gw.listeners) routes

final_counts-exact :
    (gw : Gateway) (gw_name gw_ns : String) (routes : List HttpRoute) (k : String)
    → get_or (lookup k (final_counts gw gw_name gw_ns routes)) 0
      ≡ attached_count gw gw_name gw_ns routes k
unfolding attached_count
final_counts-exact gw gw_name gw_ns routes k =
    let start = zero_counts-lookup k gw.listeners in
    elim (Bool-cases (has_name k gw.listeners)) [
      | inl e ↦
          rw
            (
              count_routes-lookup gw_name gw_ns k (zero_counts gw.listeners) routes 0
                  (start ∙ rw (e, if◌then◌else◌) refl),
              e,
              if◌then◌else◌,
            )
            (omega arith)
      | inr e ↦
          rw
            (
              count_routes-absent gw_name gw_ns k (zero_counts gw.listeners) routes
                  (start ∙ rw (e, if◌then◌else◌) refl),
              e,
              if◌then◌else◌,
            )
            refl
    ]

set_attached-kept :
    (counts : Counts) (ls : ListenerStatus) (rest : List ListenerStatus)
    → eqb ls.attached_routes (get_or (lookup ls.name counts) 0) ≡ true
    → set_attached counts (ls ∷ rest)
      ≡ (ls ∷ (set_attached counts rest).0, (set_attached counts rest).1)
unfolding set_attached
set_attached-kept counts ls rest e = rw (e, if◌then◌else◌) refl

set_attached-set :
    (counts : Counts) (ls : ListenerStatus) (rest : List ListenerStatus)
    → eqb ls.attached_routes (get_or (lookup ls.name counts) 0) ≡ false
    → set_attached counts (ls ∷ rest) ≡ (recount counts ls ∷ (set_attached counts rest).0, true)
unfolding set_attached
set_attached-set counts ls rest e = rw (e, if◌then◌else◌) refl

recount-kept :
    (counts : Counts) (ls : ListenerStatus)
    → eqb ls.attached_routes (get_or (lookup ls.name counts) 0) ≡ true
    → ls ≡ recount counts ls
recount-kept counts ls e = λ i. record {
  name = ls.name;
  attached_routes = (eqb_iff ls.attached_routes (get_or (lookup ls.name counts) 0)).0 e i;
}

set_attached-recount :
    (counts : Counts) (sts : List ListenerStatus)
    → (set_attached counts sts).0 ≡ map (recount counts) sts
unfolding set_attached
set_attached-recount counts [] = refl
set_attached-recount counts (ls ∷ rest) =
    elim (Bool-cases (eqb ls.attached_routes (get_or (lookup ls.name counts) 0))) [
      | inl e ↦
          rw (set_attached-kept counts ls rest e)
            (λ i. recount-kept counts ls e i ∷ set_attached-recount counts rest i)
      | inr e ↦
          rw (set_attached-set counts ls rest e)
            (ap (λ xs. recount counts ls ∷ xs) (set_attached-recount counts rest))
    ]

set_attached-unchanged :
    (counts : Counts) (sts : List ListenerStatus)
    → (set_attached counts sts).1 ≡ false
    → (set_attached counts sts).0 ≡ sts
unfolding set_attached
set_attached-unchanged counts [] h = refl
set_attached-unchanged counts (ls ∷ rest) h =
    elim (Bool-cases (eqb ls.attached_routes (get_or (lookup ls.name counts) 0))) [
      | inl e ↦ rw (set_attached-kept counts ls rest e) (
          ap (λ xs. ls ∷ xs)
            (set_attached-unchanged counts rest (rw (set_attached-kept counts ls rest e) at h)))
      | inr e ↦ absurd (cc (rw (set_attached-set counts ls rest e) at h))
    ]

set_attached-again :
    (counts : Counts) (sts : List ListenerStatus)
    → set_attached counts (map (recount counts) sts) ≡ (map (recount counts) sts, false)
unfolding set_attached
set_attached-again counts [] = refl
set_attached-again counts (ls ∷ rest) =
    set_attached-kept counts (recount counts ls) (map (recount counts) rest)
      (eqb_refl (get_or (lookup ls.name counts) 0))
    ∙ ap (λ r. (recount counts ls ∷ r.0, r.1)) (set_attached-again counts rest)

-- The listener statuses that the Gateway has after the outcome.
unfoldable pub statuses_after : Gateway → AttachedOutcome → List ListenerStatus
statuses_after gw AttachedOutcome.done = gw.listener_statuses
statuses_after gw (AttachedOutcome.update gw') = gw'.listener_statuses
statuses_after gw AttachedOutcome.api_error = gw.listener_statuses

map-recount :
    (gw : Gateway) (gw_name gw_ns : String) (routes : List HttpRoute) (sts : List ListenerStatus)
    → map (recount (final_counts gw gw_name gw_ns routes)) sts
      ≡ map
          (λ ls. record {
            name = ls.name;
            attached_routes = attached_count gw gw_name gw_ns routes ls.name;
          })
          sts
map-recount gw gw_name gw_ns routes [] = refl
map-recount gw gw_name gw_ns routes (ls ∷ rest) = λ i.
    record {
      name = ls.name;
      attached_routes = final_counts-exact gw gw_name gw_ns routes ls.name i;
    }
    ∷ map-recount gw gw_name gw_ns routes rest i

-- When the Gateway is found and the routes are listed, its listener statuses afterwards are those
-- before with the number of references that attach to a listener of that name, as an int32, and 0
-- for a name of no listener.
pub update_gateway_attached_routes-exact :
    (gw : Gateway) (gw_name gw_ns : String) (routes : List HttpRoute)
    → statuses_after gw
        (update_gateway_attached_routes (Fetched.found gw) (some routes) gw_name gw_ns)
      ≡ map
          (λ ls. record {
            name = ls.name;
            attached_routes = attached_count gw gw_name gw_ns routes ls.name;
          })
          gw.listener_statuses
unfolding update_gateway_attached_routes attach with_statuses statuses_after
update_gateway_attached_routes-exact gw gw_name gw_ns routes =
    let counts = final_counts gw gw_name gw_ns routes in
    let exact =
      set_attached-recount counts gw.listener_statuses
      ∙ map-recount gw gw_name gw_ns routes gw.listener_statuses in
    elim (Bool-cases (set_attached counts gw.listener_statuses).1) [
      | inl e ↦ rw (e, if◌then◌else◌) exact
      | inr e ↦
          rw (e, if◌then◌else◌) (sym (set_attached-unchanged counts gw.listener_statuses e) ∙ exact)
    ]

attach-again :
    (gw : Gateway) (gw_name gw_ns : String) (routes : List HttpRoute)
    → attach
        (with_statuses gw
          (set_attached (final_counts gw gw_name gw_ns routes) gw.listener_statuses).0)
        gw_name
        gw_ns
        routes
      ≡ AttachedOutcome.done
unfolding attach with_statuses
attach-again gw gw_name gw_ns routes =
    let counts = final_counts gw gw_name gw_ns routes in
    rw
      (
        set_attached-recount counts gw.listener_statuses,
        set_attached-again counts gw.listener_statuses,
        if◌then◌else◌,
      )
      refl

-- A Gateway whose counts were updated is left as it is by the next count of the same routes.
pub update_gateway_attached_routes-again :
    (gw gw' : Gateway) (gw_name gw_ns : String) (routes : List HttpRoute)
    → update_gateway_attached_routes (Fetched.found gw) (some routes) gw_name gw_ns
      ≡ AttachedOutcome.update gw'
    → update_gateway_attached_routes (Fetched.found gw') (some routes) gw_name gw_ns
      ≡ AttachedOutcome.done
unfolding update_gateway_attached_routes attach
update_gateway_attached_routes-again gw gw' gw_name gw_ns routes h =
    let counts = final_counts gw gw_name gw_ns routes in
    elim (Bool-cases (set_attached counts gw.listener_statuses).1) [
      | inl e ↦
          let same : with_statuses gw (set_attached counts gw.listener_statuses).0 ≡ gw' =
            cc (rw (e, if◌then◌else◌) at h) in
          ap (λ g. attach g gw_name gw_ns routes) (sym same) ∙ attach-again gw gw_name gw_ns routes
      | inr e ↦ absurd (cc (rw (e, if◌then◌else◌) at h))
    ]
