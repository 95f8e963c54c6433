-- ===== src/Router/Proxy/Laws.antt =====
-- What internal/router/proxy.go serves: the branches of a request, and where it may be sent.
use tor_gateway.Base.{
  ℕ, String, ◌≡◌, ◌≢◌, refl, ◌↔◌, inl, inr, Bool, true, false, Option, none, some, List, [], ◌∷◌,
  Memᴰ, Bytes, Option-cases, arith,
}
use tor_gateway.Base.Memᴰ
use tor_gateway.Api.{NamespacedName, HttpRoute}
use tor_gateway.Router.Match.{Backend, Rule, RouteTable, match_request, new_route_table}
use tor_gateway.Router.Match.Precedence.{
  IsFirstBest→mem, IsChoice, candidates, match_request-IsChoice,
}
use tor_gateway.Router.Match.Precedence.Members.{IsCandidate, mem-candidates, IsCandidate→mem}
use tor_gateway.Router.Aggregate.{rules_for_gateway}
use tor_gateway.Router.Aggregate.Safety.{IsAuthorised, rules_for_gateway-IsAuthorised}
use tor_gateway.Router.Proxy.{
  Url, BackendResolver, error, proxied, Proxy, new_proxy, set_table, forward, serve_http,
  serve_backend, serve_table, sync, rebuild_all,
}

-- A backend that a table returns is the first of the backends of one of its rules.
match_request-mem :
    (t : RouteTable) (path : Bytes) (b : Backend)
    → match_request t path ≡ some b
    → (r : Rule) × Memᴰ r t.rules × Memᴰ b r.backends
match_request-mem t path b e =
    let (s, f) : IsChoice (candidates path t.rules) (some b) =
      rw e at (match_request-IsChoice t path) in
    let c = mem-candidates path t.rules s b (IsFirstBest→mem _ (s, b) f) in
    (c.rule, c.listed, rw c.first (Memᴰ.head refl))

-- The table after the syncs is that of the last listing that succeeded, and else the old one.
abbrev pub last_listing :
    List (Option (List HttpRoute)) → Option (List HttpRoute) → Option (List HttpRoute)
last_listing [] old = old
last_listing (none ∷ outcomes) old = last_listing outcomes old
last_listing (some routes ∷ outcomes) old = last_listing outcomes (some routes)

abbrev pub table_of : NamespacedName → Option (List HttpRoute) → Option RouteTable
table_of gw none = none
table_of gw (some routes) = some (new_route_table (rules_for_gateway routes gw))

rebuild_all-table_of :
    (gw : NamespacedName) (outcomes : List (Option (List HttpRoute))) (p : Proxy)
    (old : Option (List HttpRoute))
    → p.table ≡ table_of gw old
    → ((rebuild_all gw outcomes p).table ≡ table_of gw (last_listing outcomes old))
      × ((rebuild_all gw outcomes p).resolve ≡ p.resolve)
unfolding rebuild_all sync set_table
rebuild_all-table_of gw [] p old e = (e, refl)
rebuild_all-table_of gw (none ∷ outcomes) p old e = rebuild_all-table_of gw outcomes p old e
rebuild_all-table_of gw (some routes ∷ outcomes) p old e =
    rebuild_all-table_of gw outcomes _ (some routes) refl

-- After any sequence of syncs of a new proxy, its table is that of the last listing that succeeded,
-- and there is no table if none did; the resolver is the one that it was built with.
pub rebuild_all-new_proxy :
    (gw : NamespacedName) (outcomes : List (Option (List HttpRoute))) (resolve : BackendResolver)
    → ((rebuild_all gw outcomes (new_proxy resolve)).table
        ≡ table_of gw (last_listing outcomes none))
      × ((rebuild_all gw outcomes (new_proxy resolve)).resolve ≡ resolve)
unfolding new_proxy
rebuild_all-new_proxy gw outcomes resolve = rebuild_all-table_of gw outcomes _ none refl

serve_after_syncs :
    (gw : NamespacedName) (outcomes : List (Option (List HttpRoute))) (resolve : BackendResolver)
    (path : Bytes)
    → serve_http (rebuild_all gw outcomes (new_proxy resolve)) path
      ≡ serve_table resolve (table_of gw (last_listing outcomes none)) path
unfolding serve_http
serve_after_syncs gw outcomes resolve path =
    let (table, same) = rebuild_all-new_proxy gw outcomes resolve in
    λ i. serve_table (same i) (table i) path

forward_proxied :
    (r : Option Url × Bool) (target : Url) → forward r ≡ proxied target → r ≡ (some target, true)
unfolding forward
forward_proxied (some u, true) target e = cc
forward_proxied (some u, false) target e = cc
forward_proxied (none, ok) target e = cc

-- The target is what the resolver gives for an authorised backend of the listing.
pub record IsSafeTarget (resolve : BackendResolver) (gw : NamespacedName) (routes : List HttpRoute)
    (path : Bytes) (target : Url) : Type 0 where
  pub backend : Backend
  pub chosen : match_request (new_route_table (rules_for_gateway routes gw)) path ≡ some backend
  pub resolved : resolve backend ≡ (some target, true)
  pub authorised : IsAuthorised routes gw backend

serve-IsSafeTarget :
    (gw : NamespacedName) (routes : List HttpRoute) (resolve : BackendResolver) (path : Bytes)
    (target : Url)
    → serve_table resolve (table_of gw (some routes)) path ≡ proxied target
    → IsSafeTarget resolve gw routes path target
unfolding serve_table serve_backend
serve-IsSafeTarget gw routes resolve path target e =
    elim (Option-cases (match_request (new_route_table (rules_for_gateway routes gw)) path)) [
      | inl missed ↦ absurd (unfold serve_backend in cc (rw (missed, serve_backend) at e))
      | inr (b, chosen) ↦
          let (r, i, j) = match_request-mem _ path b chosen in
          record {
            backend = b;
            chosen = chosen;
            resolved = forward_proxied (resolve b) target (rw (chosen, serve_backend) at e);
            authorised =
                rules_for_gateway-IsAuthorised routes gw r b (unfold new_route_table in i) j;
          }
    ]

-- After any sequence of syncs, a request is proxied only to what the resolver gives for a backend
-- that the last successful listing authorises, and that this listing's table chooses for the path.
pub serve_http-IsSafeTarget :
    (gw : NamespacedName) (outcomes : List (Option (List HttpRoute))) (resolve : BackendResolver)
    (path : Bytes) (target : Url)
    → serve_http (rebuild_all gw outcomes (new_proxy resolve)) path ≡ proxied target
    → (routes : List HttpRoute) × (last_listing outcomes none ≡ some routes)
      × IsSafeTarget resolve gw routes path target
serve_http-IsSafeTarget gw outcomes resolve path target e =
    by_listing (last_listing outcomes none) refl
      (rw (serve_after_syncs gw outcomes resolve path) at e)
  where
    by_listing :
        (l : Option (List HttpRoute))
        → last_listing outcomes none ≡ l
        → serve_table resolve (table_of gw (last_listing outcomes none)) path ≡ proxied target
        → (routes : List HttpRoute) × (last_listing outcomes none ≡ some routes)
          × IsSafeTarget resolve gw routes path target
    by_listing none q h = absurd (unfold serve_table in cc (rw (q, serve_table) at h))
    by_listing (some routes) q h =
        (routes, q, serve-IsSafeTarget gw routes resolve path target (rw q at h))

not_forwarded_404 : (r : Option Url × Bool) (message : String) → forward r ≢ error 404 message
unfolding forward
not_forwarded_404 (some u, true) message e = cc
not_forwarded_404 (some u, false) message e = ground arith
not_forwarded_404 (none, ok) message e = ground arith

candidates_of_match :
    (t : RouteTable) (path : Bytes) → (match_request t path ≡ none) ↔ (candidates path t.rules ≡ [])
candidates_of_match t path = by_choice (match_request t path) (match_request-IsChoice t path)
  where
    by_choice :
        (o : Option Backend)
        → IsChoice (candidates path t.rules) o
        → (o ≡ none) ↔ (candidates path t.rules ≡ [])
    by_choice none c = (λ _. c, λ _. refl)
    by_choice (some b) (s, f) =
        (λ e. cc, λ e. absurd (Memᴰ.not-nil (rw e at (IsFirstBest→mem _ (s, b) f))))

candidates-eq-nil_iff :
    (path : Bytes) (rules : List Rule)
    → (candidates path rules ≡ []) ↔ ((s : ℕ) (b : Backend) → ¬ IsCandidate path rules s b)
candidates-eq-nil_iff path rules = (
  λ e s b c. Memᴰ.not-nil (rw e at (IsCandidate→mem path rules s b c)),
  λ h. by_list (candidates path rules) (λ s b i. h s b (mem-candidates path rules s b i)),
)
  where
    by_list : (cs : List (ℕ × Backend)) → ((s : ℕ) (b : Backend) → ¬ Memᴰ (s, b) cs) → cs ≡ []
    by_list [] h = refl
    by_list ((s, b) ∷ cs) h = absurd (h s b (Memᴰ.head refl))

served_404_iff :
    (resolve : BackendResolver) (o : Option Backend)
    → (serve_backend resolve o ≡ error 404 "no matching route") ↔ (o ≡ none)
unfolding serve_backend
served_404_iff resolve none = (λ _. refl, λ _. refl)
served_404_iff resolve (some b) = (λ e. absurd (not_forwarded_404 (resolve b) _ e), λ e. cc)

-- Once a listing has succeeded, a request finds no route exactly when no match of a rule with
-- backends, in the rules of the last successful listing, applies to its path.
pub serve_http-404_iff :
    (gw : NamespacedName) (outcomes : List (Option (List HttpRoute))) (resolve : BackendResolver)
    (path : Bytes) (routes : List HttpRoute)
    → last_listing outcomes none ≡ some routes
    → (serve_http (rebuild_all gw outcomes (new_proxy resolve)) path
        ≡ error 404 "no matching route")
      ↔ ((s : ℕ) (b : Backend) → ¬ IsCandidate path (rules_for_gateway routes gw) s b)
unfolding serve_table
serve_http-404_iff gw outcomes resolve path routes last =
    rw (serve_after_syncs gw outcomes resolve path, last)
      (let t : RouteTable = new_route_table (rules_for_gateway routes gw) in
        let (a, a') = served_404_iff resolve (match_request t path) in
        let (b, b') = candidates_of_match t path in
        let (c, c') = candidates-eq-nil_iff path (rules_for_gateway routes gw) in
        unfold new_route_table in (λ e. c (b (a e)), λ h. a' (b' (c' h))))
