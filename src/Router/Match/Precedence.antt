-- ===== src/Router/Match/Precedence.antt =====
-- Which backend internal/router/match.go chooses when several matches apply.
pub mod Members
pub mod Exact
use tor_gateway.Base.{
  ℕ, ◌+◌, ◌≤◌, ◌<◌, ◌≡◌, refl, sym, ap, ◌∙◌, ◌↔◌, ◌⊎◌, inl, inr, Bool, true, false, Option, none,
  some, List, [], ◌∷◌, ◌++◌, Memᴰ, Bytes, All, length, ltb, if◌then◌else◌, Bool-cases, arith,
}
use tor_gateway.Base.Memᴰ
use tor_gateway.Router.Match.{
  Match, Backend, Rule, RouteTable, Best, backend_of, PathMatch, exceeds, path_matches, path_score,
  consider, match_rule, match_backends, match_rules, match_request,
}

abbrev pub Candidate : Type 0
Candidate = ℕ × Backend

-- The matches that apply, in the order of the rules, with their scores and backends.
rule_candidates : Bytes → Backend → List Match → List Candidate
rule_candidates path b [] = []
rule_candidates path b (m ∷ ms) =
    if path_matches m.path path
    then (path_score m.path, b) ∷ rule_candidates path b ms
    else rule_candidates path b ms

backend_candidates : Bytes → List Backend → List Match → List Candidate
backend_candidates path [] ms = []
backend_candidates path (b ∷ _) ms = rule_candidates path b ms

pub candidates : Bytes → List Rule → List Candidate
candidates path [] = []
candidates path (r ∷ rs) = backend_candidates path r.backends r.matches ++ candidates path rs

-- The first of the candidates with the highest score.
pub record IsFirstBest (cs : List Candidate) (c : Candidate) : Type 0 where
  pub before : List Candidate
  pub after : List Candidate
  pub split : cs ≡ before ++ c ∷ after
  pub lower : All (λ (d : Candidate). d.0 < c.0) before
  pub not_higher : All (λ (d : Candidate). d.0 ≤ c.0) after

best_of : List Candidate → Best → Best
best_of [] best = best
best_of (c ∷ cs) best = best_of cs (if exceeds c.0 best then some c else best)

best_of-append :
    (xs ys : List Candidate) (best : Best) → best_of (xs ++ ys) best ≡ best_of ys (best_of xs best)
unfolding best_of
best_of-append [] ys best = refl
best_of-append (x ∷ xs) ys best = best_of-append xs ys (if exceeds x.0 best then some x else best)

match_rule-best_of :
    (path : Bytes) (b : Backend) (ms : List Match) (best : Best)
    → match_rule path b ms best ≡ best_of (rule_candidates path b ms) best
unfolding match_rule best_of rule_candidates
match_rule-best_of path b [] best = refl
match_rule-best_of path b (m ∷ ms) best = elim (Bool-cases (path_matches m.path path)) [
  | inl e ↦ rw (e, if◌then◌else◌) (match_rule-best_of path b ms _)
  | inr e ↦ rw (e, if◌then◌else◌) (match_rule-best_of path b ms _)
]

match_backends-best_of :
    (path : Bytes) (bs : List Backend) (ms : List Match) (best : Best)
    → match_backends path bs ms best ≡ best_of (backend_candidates path bs ms) best
unfolding match_backends best_of backend_candidates
match_backends-best_of path [] ms best = refl
match_backends-best_of path (b ∷ _) ms best = match_rule-best_of path b ms best

-- `match_rules` is the running maximum over the candidates.
match_rules-best_of :
    (path : Bytes) (rs : List Rule) (best : Best)
    → match_rules path rs best ≡ best_of (candidates path rs) best
unfolding match_rules candidates
match_rules-best_of path [] best = unfold best_of in refl
match_rules-best_of path (r ∷ rs) best =
    rw (match_backends-best_of path r.backends r.matches best, best_of-append)
      (match_rules-best_of path rs _)

pub IsFirstBest→mem : (cs : List Candidate) (c : Candidate) → IsFirstBest cs c → Memᴰ c cs
IsFirstBest→mem cs c f = rw f.split (Memᴰ.append_right f.before (Memᴰ.head refl))

IsFirstBest-head :
    (ds : List Candidate) (d : Candidate)
    → All (λ (e : Candidate). e.0 ≤ d.0) ds
    → IsFirstBest (d ∷ ds) d
IsFirstBest-head ds d h = record {
  before = [];
  after = ds;
  split = refl;
  lower = tt;
  not_higher = h;
}

IsFirstBest-cons :
    (ds : List Candidate) (d r : Candidate) → d.0 < r.0 → IsFirstBest ds r → IsFirstBest (d ∷ ds) r
IsFirstBest-cons ds d r lt f = record {
  before = d ∷ f.before;
  after = f.after;
  split = ap (λ l. d ∷ l) f.split;
  lower = (lt, f.lower);
  not_higher = f.not_higher;
}

-- Where a maximum `c` stands already, it stays or yields to the first higher one.
best_of-some :
    (cs : List Candidate) (c : Candidate)
    → ((best_of cs (some c) ≡ some c) × All (λ (d : Candidate). d.0 ≤ c.0) cs)
      ⊎ ((r : Candidate) × (best_of cs (some c) ≡ some r) × IsFirstBest cs r × (c.0 < r.0))
unfolding best_of
best_of-some [] c = inl (refl, tt)
best_of-some (d ∷ ds) c = elim (Bool-cases (ltb c.0 d.0)) [
  | inl higher ↦
      rw (higher, if◌then◌else◌)
        (elim (best_of-some ds d) [
          | inl (e, h) ↦ inr (d, e, IsFirstBest-head ds d h, ground arith)
          | inr (r, e, f, lt) ↦ inr (r, e, IsFirstBest-cons ds d r lt f, ground arith)
        ])
  | inr not_higher ↦
      rw (not_higher, if◌then◌else◌)
        (elim (best_of-some ds c) [
          | inl (e, h) ↦ inl (e, (ground arith, h))
          | inr (r, e, f, lt) ↦ inr (r, e, IsFirstBest-cons ds d r (ground arith) f, lt)
        ])
]

-- What a choice must be: none exactly without a candidate, and else the backend of the first best.
abbrev pub IsChoice : List Candidate → Option Backend → Type 0
IsChoice cs none = cs ≡ []
IsChoice cs (some b) = (s : ℕ) × IsFirstBest cs (s, b)

best_of-IsChoice : (cs : List Candidate) → IsChoice cs (backend_of (best_of cs none))
unfolding best_of
best_of-IsChoice [] = refl
best_of-IsChoice (c ∷ cs) = elim (best_of-some cs c) [
  | inl (e, h) ↦ rw e (c.0, IsFirstBest-head cs c h)
  | inr (r, e, f, lt) ↦ rw e (r.0, IsFirstBest-cons cs c r lt f)
]

-- The backend that a request gets is that of the first of the applying matches with the highest
-- score; no backend is returned exactly when no match of a rule with backends applies.
pub match_request-IsChoice :
    (t : RouteTable) (path : Bytes) → IsChoice (candidates path t.rules) (match_request t path)
unfolding match_request
match_request-IsChoice t path =
    rw (match_rules-best_of path t.rules none) (best_of-IsChoice (candidates path t.rules))
