-- ===== src/Router/Match/Precedence/Members.antt =====
-- What the candidates of internal/router/match.go are: the matches that apply.
use tor_gateway.Base.{
  ℕ, ◌≡◌, refl, sym, ap, ◌∙◌, inl, inr, true, List, [], ◌∷◌, Memᴰ, Bytes, if◌then◌else◌, Bool-cases,
  arith,
}
use tor_gateway.Base.Memᴰ
use tor_gateway.Router.Match.{Match, Backend, Rule, path_matches, path_score}
use tor_gateway.Router.Match.Precedence.{candidates, backend_candidates, rule_candidates}

-- A match of a rule with backends that applies to the path, with its score and the first backend.
pub record IsCandidate (path : Bytes) (rules : List Rule) (s : ℕ) (b : Backend) : Type 0 where
  pub rule : Rule
  pub listed : Memᴰ rule rules
  pub others : List Backend
  pub first : rule.backends ≡ b ∷ others
  pub match : Match
  pub of_rule : Memᴰ match rule.matches
  pub applies : path_matches match.path path ≡ true
  pub score : s ≡ path_score match.path

mem-rule_candidates :
    (path : Bytes) (b b' : Backend) (s : ℕ) (ms : List Match)
    → Memᴰ (s, b') (rule_candidates path b ms)
    → (m : Match) × Memᴰ m ms
      × (path_matches m.path path ≡ true)
      × (s ≡ path_score m.path)
      × (b' ≡ b)
unfolding rule_candidates
mem-rule_candidates path b b' s [] i = absurd (Memᴰ.not-nil i)
mem-rule_candidates path b b' s (m ∷ ms) i = elim (Bool-cases (path_matches m.path path)) [
  | inl e ↦ elim (Memᴰ.cases_cons (rw (e, if◌then◌else◌) at i)) [
    | inl q ↦ (m, Memᴰ.head refl, e, ground arith, ground arith)
    | inr j ↦
        let (k, l, p, q, r) = mem-rule_candidates path b b' s ms j in (k, Memᴰ.tail l, p, q, r)
  ]
  | inr e ↦
      let (k, l, p, q, r) = mem-rule_candidates path b b' s ms (rw (e, if◌then◌else◌) at i) in
      (k, Memᴰ.tail l, p, q, r)
]

rule_candidates-mem :
    (path : Bytes) (b : Backend) (m : Match) (ms : List Match)
    → Memᴰ m ms
    → path_matches m.path path ≡ true
    → Memᴰ (path_score m.path, b) (rule_candidates path b ms)
unfolding rule_candidates
rule_candidates-mem path b m [] i e = elim i [ ]
rule_candidates-mem path b m (n ∷ ms) (Memᴰ.head q) e =
    rw (ap (λ (x : Match). path_matches x.path path) (sym q) ∙ e, if◌then◌else◌)
      (Memᴰ.head (ap (λ (x : Match). (path_score x.path, b)) q))
rule_candidates-mem path b m (n ∷ ms) (Memᴰ.tail i) e =
    elim (Bool-cases (path_matches n.path path)) [
      | inl d ↦ rw (d, if◌then◌else◌) (Memᴰ.tail (rule_candidates-mem path b m ms i e))
      | inr d ↦ rw (d, if◌then◌else◌) (rule_candidates-mem path b m ms i e)
    ]

IsCandidate-there :
    (path : Bytes) (r : Rule) (rs : List Rule) (s : ℕ) (b : Backend)
    → IsCandidate path rs s b
    → IsCandidate path (r ∷ rs) s b
IsCandidate-there path r rs s b c = record {
  rule = c.rule;
  listed = Memᴰ.tail c.listed;
  others = c.others;
  first = c.first;
  match = c.match;
  of_rule = c.of_rule;
  applies = c.applies;
  score = c.score;
}

mem-backend_candidates :
    (path : Bytes) (r : Rule) (bs : List Backend) (s : ℕ) (b : Backend)
    → Memᴰ (s, b) (backend_candidates path bs r.matches)
    → r.backends ≡ bs
    → (rs : List Rule) → IsCandidate path (r ∷ rs) s b
unfolding backend_candidates
mem-backend_candidates path r [] s b i e rs = absurd (Memᴰ.not-nil i)
mem-backend_candidates path r (c ∷ bs) s b i e rs =
    let (m, l, p, q, same) = mem-rule_candidates path c b s r.matches i in
    record {
      rule = r;
      listed = Memᴰ.head refl;
      others = bs;
      first = e ∙ ap (λ (x : Backend). x ∷ bs) (sym same);
      match = m;
      of_rule = l;
      applies = p;
      score = q;
    }

pub mem-candidates :
    (path : Bytes) (rs : List Rule) (s : ℕ) (b : Backend)
    → Memᴰ (s, b) (candidates path rs)
    → IsCandidate path rs s b
unfolding candidates
mem-candidates path [] s b i = absurd (Memᴰ.not-nil i)
mem-candidates path (r ∷ rs) s b i =
    elim (Memᴰ.append_cases (backend_candidates path r.backends r.matches) i) [
      | inl j ↦ mem-backend_candidates path r r.backends s b j refl rs
      | inr j ↦ IsCandidate-there path r rs s b (mem-candidates path rs s b j)
    ]

backend_candidates-mem :
    (path : Bytes) (b : Backend) (others bs : List Backend) (ms : List Match) (m : Match)
    → bs ≡ b ∷ others
    → Memᴰ m ms
    → path_matches m.path path ≡ true
    → Memᴰ (path_score m.path, b) (backend_candidates path bs ms)
unfolding backend_candidates
backend_candidates-mem path b others bs ms m e i p = rw e (rule_candidates-mem path b m ms i p)

candidates-mem :
    (path : Bytes) (r : Rule) (rs : List Rule) (b : Backend) (others : List Backend) (m : Match)
    → Memᴰ r rs
    → r.backends ≡ b ∷ others
    → Memᴰ m r.matches
    → path_matches m.path path ≡ true
    → Memᴰ (path_score m.path, b) (candidates path rs)
unfolding candidates
candidates-mem path r [] b others m l e i p = elim l [ ]
candidates-mem path r (q ∷ rs) b others m (Memᴰ.head same) e i p =
    Memᴰ.append_left {s = backend_candidates path q.backends q.matches} (candidates path rs)
      (rw (← same) (backend_candidates-mem path b others r.backends r.matches m e i p))
candidates-mem path r (q ∷ rs) b others m (Memᴰ.tail l) e i p =
    Memᴰ.append_right _ (candidates-mem path r rs b others m l e i p)

pub IsCandidate→mem :
    (path : Bytes) (rs : List Rule) (s : ℕ) (b : Backend)
    → IsCandidate path rs s b
    → Memᴰ (s, b) (candidates path rs)
IsCandidate→mem path rs s b c =
    rw c.score
      (candidates-mem path c.rule rs b c.others c.match c.listed c.first c.of_rule c.applies)
