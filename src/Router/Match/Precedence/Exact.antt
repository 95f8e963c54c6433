-- ===== src/Router/Match/Precedence/Exact.antt =====
-- Why an exact match of internal/router/match.go outranks every prefix, whatever the lengths.
use tor_gateway.Base.{
  ℕ, ◌+◌, ◌≤◌, ◌<◌, ◌≡◌, refl, sym, inl, inr, true, Option, none, some, List, ◌∷◌, Memᴰ, Bytes,
  length, Bool-cases, arith, bytes_eq, bytes_eq_sound, bytes_eq_refl, All-mem, length-append,
}
use tor_gateway.Base.Memᴰ
use tor_gateway.Router.Match.{
  Match, Backend, Rule, RouteTable, PathMatchType, PathMatch, exact, path_prefix, other, exact_tier,
  path_matches, path_score, closed_prefix, has_prefix, slash, matches_kind, score_of, match_request,
}
use tor_gateway.Router.Match.Precedence.{
  Candidate, candidates, IsFirstBest, IsFirstBest→mem, IsChoice, match_request-IsChoice,
}
use tor_gateway.Router.Match.Precedence.Members.{IsCandidate, mem-candidates, IsCandidate→mem}

-- No candidate scores above the first best.
IsFirstBest-highest :
    (cs : List Candidate) (c d : Candidate) → IsFirstBest cs c → Memᴰ d cs → d.0 ≤ c.0
IsFirstBest-highest cs c d f i = elim (Memᴰ.append_cases f.before (rw f.split at i)) [
  | inl j ↦
      let h : d.0 < c.0 = All-mem (λ (e : Candidate). e.0 < c.0) f.before f.lower j in omega arith
  | inr j ↦ elim (Memᴰ.cases_cons j) [
    | inl e ↦ rw e (omega arith)
    | inr k ↦ All-mem (λ (e : Candidate). e.0 ≤ c.0) f.after f.not_higher k
  ]
]

length-closed_prefix : (v : Bytes) → length v ≤ length (closed_prefix v)
unfolding closed_prefix
length-closed_prefix v = ground (arith, length-append v slash)

-- A value that matches is no longer than the path.
length_of_match :
    (k : PathMatchType) (v path : Bytes) → matches_kind k v path ≡ true → length v ≤ length path
unfolding matches_kind has_prefix
length_of_match exact v path h = rw (bytes_eq_sound path v h) (omega arith)
length_of_match path_prefix v path h = elim (Bool-cases (bytes_eq path v)) [
  | inl e ↦ rw (bytes_eq_sound path v e) (omega arith)
  | inr e ↦ ground (arith, length-closed_prefix v)
]
length_of_match (other t) v path h = cc

IsExact : PathMatchType → Bytes → Bytes → Type 0
IsExact k v path = (k ≡ exact) × (v ≡ path)

-- Only an exact match reaches the exact tier.
score-IsExact :
    (k : PathMatchType) (v path : Bytes)
    → matches_kind k v path ≡ true
    → exact_tier + length path ≤ score_of k v
    → IsExact k v path
unfolding IsExact score_of
score-IsExact exact v path h le = (refl, sym (bytes_eq_sound path v (unfold matches_kind in h)))
score-IsExact path_prefix v path h le = absurd (omega (arith, length_of_match path_prefix v path h))
score-IsExact (other t) v path h le = absurd (omega (arith, length_of_match (other t) v path h))

matches_of_exact :
    (p : PathMatch) (path : Bytes) → p.kind ≡ exact → p.value ≡ path → path_matches p path ≡ true
unfolding path_matches matches_kind
matches_of_exact p path k v = rw (k, v, matches_kind) (bytes_eq_refl path)

exact_score_le :
    (p : PathMatch) (path : Bytes) (s : ℕ)
    → p.kind ≡ exact
    → p.value ≡ path
    → path_score p ≤ s
    → exact_tier + length path ≤ s
unfolding path_score score_of
exact_score_le p path s k v le = rw (k, v, score_of) at le

-- The backend comes from a rule that has an exact match for the path.
pub record IsExactChoice (t : RouteTable) (path : Bytes) (chosen : Backend) : Type 0 where
  pub score : ℕ
  pub candidate : IsCandidate path t.rules score chosen
  pub kind : candidate.match.path.kind ≡ exact
  pub value : candidate.match.path.value ≡ path

exact_choice :
    (t : RouteTable) (path : Bytes) (s : ℕ) (chosen : Backend)
    → IsFirstBest (candidates path t.rules) (s, chosen)
    → exact_tier + length path ≤ s
    → IsExactChoice t path chosen
unfolding path_score path_matches IsExact
exact_choice t path s chosen f le =
    let c = mem-candidates path t.rules s chosen (IsFirstBest→mem _ (s, chosen) f) in
    let (k, v) =
      score-IsExact c.match.path.kind c.match.path.value path c.applies (rw c.score at le) in
    record { score = s; candidate = c; kind = k; value = v }

-- If some rule with backends has an exact match for the path, then the request is answered, and its
-- backend is the first one of a rule that has an exact match for the path.
pub match_request-exact :
    (t : RouteTable) (path : Bytes) (r : Rule) (b : Backend) (others : List Backend) (m : Match)
    → Memᴰ r t.rules
    → r.backends ≡ b ∷ others
    → Memᴰ m r.matches
    → m.path.kind ≡ exact
    → m.path.value ≡ path
    → (chosen : Backend) × (match_request t path ≡ some chosen) × IsExactChoice t path chosen
match_request-exact t path r b others m in_table first in_rule kind value =
    by_choice (match_request t path) refl (match_request-IsChoice t path)
  where
    score : ℕ
    score = path_score m.path

    applies : path_matches m.path path ≡ true
    applies = matches_of_exact m.path path kind value

    listed : Memᴰ (score, b) (candidates path t.rules)
    listed = IsCandidate→mem path t.rules score b (record {
      rule = r;
      listed = in_table;
      others = others;
      first = first;
      match = m;
      of_rule = in_rule;
      applies = applies;
      score = refl;
    })

    by_choice :
        (o : Option Backend)
        → match_request t path ≡ o
        → IsChoice (candidates path t.rules) o
        → (chosen : Backend) × (match_request t path ≡ some chosen) × IsExactChoice t path chosen
    by_choice none e c = absurd (Memᴰ.not-nil (rw c at listed))
    by_choice (some chosen) e (s, f) = (
      chosen,
      e,
      exact_choice t path s chosen f (
          exact_score_le m.path path s kind value
            (IsFirstBest-highest _ (s, chosen) (score, b) f listed)),
    )
