-- ===== src/Router/Match.antt =====
-- internal/router/match.go: path matches, their precedence, and the choice of a backend.
pub mod Segments
pub mod Precedence
use tor_gateway.Base.{
  ℕ, ◌+◌, String, Bool, true, false, Option, none, some, List, [], ◌∷◌, ◌++◌, Bytes, codes, length,
  take, leb, ltb, bytes_eq, if◌then◌else◌,
}

-- A string type in Go: `other` is any third value.
pub data PathMatchType : Type 0 where
  exact path_prefix : PathMatchType
  other : String → PathMatchType

pub record PathMatch : Type 0 where
  pub kind : PathMatchType
  pub value : Bytes

pub record Match : Type 0 where
  pub path : PathMatch

pub record Backend : Type 0 where
  pub namespace : String
  pub name : String
  pub port : ℕ

pub record Rule : Type 0 where
  pub matches : List Match
  pub backends : List Backend

pub record RouteTable : Type 0 where
  pub rules : List Rule

unfoldable pub new_route_table : List Rule → RouteTable
new_route_table rules = record { rules = rules }

abbrev pub slash : Bytes
slash = b'/' ∷ []

abbrev pub exact_tier : ℕ
exact_tier = 65536

score_of : PathMatchType → Bytes → ℕ
score_of exact value = exact_tier + length value
score_of _ value = length value

unfoldable pub path_score : PathMatch → ℕ
unfolding score_of
path_score p = score_of p.kind p.value

-- `prefix`, with the slash that ends it
unfoldable pub closed_prefix : Bytes → Bytes
closed_prefix value = if bytes_eq value slash then value else value ++ slash

unfoldable pub has_prefix : Bytes → Bytes → Bool
has_prefix path prefix =
    if leb (length prefix) (length path) then bytes_eq (take (length prefix) path) prefix else false

matches_kind : PathMatchType → Bytes → Bytes → Bool
matches_kind exact value path = bytes_eq path value
matches_kind path_prefix value path =
    if bytes_eq path value then true else has_prefix path (closed_prefix value)
matches_kind (other t) value path = false

unfoldable pub path_matches : PathMatch → Bytes → Bool
unfolding matches_kind closed_prefix has_prefix
path_matches p path = matches_kind p.kind p.value path

-- The variables of the loop: no score stands for -1, below every score, and comes with no backend.
abbrev pub Best : Type 0
Best = Option (ℕ × Backend)

abbrev pub exceeds : ℕ → Best → Bool
exceeds s none = true
exceeds s (some (best_score, _)) = ltb best_score s

-- One round of the inner loop, for a rule whose first backend is `b`.
unfoldable pub consider : Bytes → Backend → Match → Best → Best
unfolding path_matches path_score
consider path b m best =
    if path_matches m.path path
    then if exceeds (path_score m.path) best then some (path_score m.path, b) else best
    else best

unfoldable pub match_rule : Bytes → Backend → List Match → Best → Best
unfolding consider
match_rule path b [] best = best
match_rule path b (m ∷ ms) best = match_rule path b ms (consider path b m best)

-- The body of the outer loop, which skips a rule with no backend.
unfoldable pub match_backends : Bytes → List Backend → List Match → Best → Best
unfolding match_rule
match_backends path [] ms best = best
match_backends path (b ∷ _) ms best = match_rule path b ms best

unfoldable pub match_rules : Bytes → List Rule → Best → Best
unfolding match_backends
match_rules path [] best = best
match_rules path (r ∷ rs) best = match_rules path rs (match_backends path r.backends r.matches best)

abbrev backend_of : Best → Option Backend
backend_of none = none
backend_of (some (_, b)) = some b

-- `none` is the result `ok = false`.
unfoldable pub match_request : RouteTable → Bytes → Option Backend
unfolding match_rules
match_request t path = backend_of (match_rules path t.rules none)
