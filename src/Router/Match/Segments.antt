-- ===== src/Router/Match/Segments.antt =====
-- What a prefix of internal/router/match.go matches: whole path segments.
use tor_gateway.Base.{
  ℕ, ◌≡◌, ◌≢◌, refl, sym, ap, ◌∙◌, ◌↔◌, ◌⊎◌, inl, inr, true, false, List, [], ◌∷◌, ◌++◌, Bytes,
  length, take, drop, take-append-drop, take-length-append, eqb, eqb_iff, if◌then◌else◌, Bool-cases,
  arith, bytes_eq, bytes_eq_sound, bytes_eq_iff, bytes_eq_refl, length-append, append_cancel,
}
use mathlib.Core.List.{append-nil, append_assoc}
use tor_gateway.Router.Match.{
  path_prefix, path_matches, closed_prefix, has_prefix, slash, matches_kind,
}

-- A path cut at every slash.
split_from : Bytes → Bytes → List Bytes
split_from cur [] = cur ∷ []
split_from cur (c ∷ s) = if eqb c b'/' then cur ∷ split_from [] s else split_from (cur ++ c ∷ []) s

pub split_path : Bytes → List Bytes
split_path = split_from []

-- One list of segments begins with another.
abbrev pub IsSegmentPrefix : List Bytes → List Bytes → Type 0
IsSegmentPrefix xs ys = (rest : List Bytes) × (ys ≡ xs ++ rest)

abbrev StartsWith : Bytes → Bytes → Type 0
StartsWith path prefix = (rest : Bytes) × (path ≡ prefix ++ rest)

-- The comparison of a slice is a prefix test.
has_prefix_iff : (path prefix : Bytes) → (has_prefix path prefix ≡ true) ↔ StartsWith path prefix
unfolding has_prefix
has_prefix_iff path prefix = (λ h. (drop (length prefix) path, to h), from)
  where
    to : has_prefix path prefix ≡ true → path ≡ prefix ++ drop (length prefix) path
    to h =
        let same : bytes_eq (take (length prefix) path) prefix ≡ true = ground arith in
        sym (take-append-drop (length prefix) path)
        ∙ ap (λ (l : Bytes). l ++ drop (length prefix) path) (bytes_eq_sound _ prefix same)

    from : StartsWith path prefix → has_prefix path prefix ≡ true
    from (rest, e) =
        rw (e, take-length-append, bytes_eq_refl) (ground (arith, length-append prefix rest))

-- A slash between two paths cuts them apart.
split_from-append :
    (cur a b : Bytes) → split_from cur (a ++ b'/' ∷ b) ≡ split_from cur a ++ split_from [] b
unfolding split_from
split_from-append cur [] b = refl
split_from-append cur (c ∷ a) b =
    ground (arith, split_from-append [] a b, split_from-append (cur ++ c ∷ []) a b)

split_from-ne-nil : (cur s : Bytes) → (y : Bytes) × (ys : List Bytes) × (split_from cur s ≡ y ∷ ys)
unfolding split_from
split_from-ne-nil cur [] = (cur, [], refl)
split_from-ne-nil cur (c ∷ s) = elim (Bool-cases (eqb c b'/')) [
  | inl e ↦ rw (e, if◌then◌else◌) (cur, split_from [] s, refl)
  | inr e ↦ rw (e, if◌then◌else◌) (split_from-ne-nil (cur ++ c ∷ []) s)
]

abbrev join : List Bytes → Bytes
join [] = []
join (x ∷ []) = x
join (x ∷ y ∷ ys) = x ++ b'/' ∷ join (y ∷ ys)

join-append :
    (x : Bytes) (xs : List Bytes) (y : Bytes) (ys : List Bytes)
    → join (x ∷ xs ++ y ∷ ys) ≡ join (x ∷ xs) ++ b'/' ∷ join (y ∷ ys)
join-append x [] y ys = refl
join-append x (z ∷ zs) y ys =
    rw (join-append z zs y ys, append_assoc x (b'/' ∷ join (z ∷ zs)) (b'/' ∷ join (y ∷ ys)))

join-cons_split : (x s : Bytes) → join (x ∷ split_from [] s) ≡ x ++ b'/' ∷ join (split_from [] s)
join-cons_split x s = let (y, ys, e) = split_from-ne-nil [] s in rw e

-- Joining the segments of a path again gives the path.
join-split_from : (cur s : Bytes) → join (split_from cur s) ≡ cur ++ s
unfolding split_from
join-split_from cur [] = sym (append-nil cur)
join-split_from cur (c ∷ s) = elim (Bool-cases (eqb c b'/')) [
  | inl e ↦
      rw (e, if◌then◌else◌) (rw (join-cons_split cur s, join-split_from [] s, (eqb_iff c b'/').0 e))
  | inr e ↦ rw (e, if◌then◌else◌) (join-split_from (cur ++ c ∷ []) s ∙ append_assoc cur (c ∷ []) s)
]

join-split_path : (v : Bytes) → join (split_path v) ≡ v
unfolding split_path
join-split_path v = join-split_from [] v

join-split_append :
    (v : Bytes) (y : Bytes) (ys : List Bytes)
    → join (split_path v ++ y ∷ ys) ≡ v ++ b'/' ∷ join (y ∷ ys)
unfolding split_path
join-split_append v y ys =
    let (x, xs, e) = split_from-ne-nil [] v in
    rw e (rw (join-append x xs y ys, ← e) (rw (join-split_from [] v)))

-- A value that is a path but for "/" and the path itself.
matches_prefix_iff :
    (v path : Bytes)
    → (matches_kind path_prefix v path ≡ true) ↔ ((path ≡ v) ⊎ StartsWith path (closed_prefix v))
unfolding matches_kind
matches_prefix_iff v path =
    ground (arith, bytes_eq_iff path v, has_prefix_iff path (closed_prefix v))

segments_to :
    (v path : Bytes)
    → closed_prefix v ≡ v ++ slash
    → (path ≡ v) ⊎ StartsWith path (closed_prefix v)
    → IsSegmentPrefix (split_path v) (split_path path)
unfolding split_path
segments_to v path c (inl e) = ([], rw (e, append-nil))
segments_to v path c (inr (rest, e)) =
    (split_from [] rest, rw (e, c, append_assoc v slash rest) (split_from-append [] v rest))

segments_from :
    (v path : Bytes)
    → closed_prefix v ≡ v ++ slash
    → IsSegmentPrefix (split_path v) (split_path path)
    → (path ≡ v) ⊎ StartsWith path (closed_prefix v)
segments_from v path c ([], e) =
    inl (sym (join-split_path path) ∙ ap join (e ∙ append-nil _) ∙ join-split_path v)
segments_from v path c (y ∷ ys, e) = inr (
  join (y ∷ ys),
  rw c (
      sym (join-split_path path)
      ∙ ap join e
      ∙ join-split_append v y ys
      ∙ sym (append_assoc v slash (join (y ∷ ys)))),
)

closed_prefix_of_ne : (v : Bytes) → v ≢ slash → closed_prefix v ≡ v ++ slash
unfolding closed_prefix
closed_prefix_of_ne v h = ground (arith, bytes_eq_iff v slash)

-- A prefix other than "/" matches exactly the paths whose segments begin with its segments.
pub path_matches-segments_iff :
    (v path : Bytes)
    → v ≢ slash
    → (path_matches (record { kind = path_prefix; value = v }) path ≡ true)
      ↔ IsSegmentPrefix (split_path v) (split_path path)
unfolding path_matches
path_matches-segments_iff v path h =
    let c = closed_prefix_of_ne v h in
    let (to, from) = matches_prefix_iff v path in
    (λ e. segments_to v path c (to e), λ s. from (segments_from v path c s))

closed_prefix-slash : closed_prefix slash ≡ slash
unfolding closed_prefix bytes_eq
closed_prefix-slash = refl

-- The prefix "/" matches exactly the paths that begin with a slash.
pub path_matches-root_iff :
    (path : Bytes)
    → (path_matches (record { kind = path_prefix; value = slash }) path ≡ true)
      ↔ StartsWith path slash
unfolding path_matches
path_matches-root_iff path =
    let (to, from) = matches_prefix_iff slash path in
    (λ e. slash_to (to e), λ s. from (inr (rw closed_prefix-slash s)))
  where
    slash_to : (path ≡ slash) ⊎ StartsWith path (closed_prefix slash) → StartsWith path slash
    slash_to (inl e) = ([], e)
    slash_to (inr s) = rw closed_prefix-slash at s

nil_of_length : (w : Bytes) → length (w ++ slash) ≡ 1 → w ≡ []
nil_of_length [] h = refl
nil_of_length (c ∷ w) h = absurd (omega (arith, length-append w slash))

-- A prefix that itself ends in a slash, other than "/", matches none of the paths below it: the
-- path goes on, right after that slash, with a character other than a slash.
pub path_matches-trailing_slash :
    (w : Bytes) (c : ℕ) (s : Bytes)
    → w ≢ []
    → c ≢ b'/'
    → path_matches (record { kind = path_prefix; value = w ++ slash }) (w ++ b'/' ∷ c ∷ s) ≡ false
unfolding path_matches
path_matches-trailing_slash w c s not_root other_char =
    elim (Bool-cases (matches_kind path_prefix (w ++ slash) (w ++ b'/' ∷ c ∷ s))) [
      | inl e ↦ absurd (impossible ((matches_prefix_iff (w ++ slash) (w ++ b'/' ∷ c ∷ s)).0 e))
      | inr e ↦ e
    ]
  where
    value_ne : w ++ slash ≢ slash
    value_ne e = not_root (nil_of_length w (ap length e))

    impossible : ¬ (
        (w ++ b'/' ∷ c ∷ s ≡ w ++ slash)
        ⊎ StartsWith (w ++ b'/' ∷ c ∷ s) (closed_prefix (w ++ slash)))
    impossible (inl e) = cc (append_cancel w (b'/' ∷ c ∷ s) slash e)
    impossible (inr (rest, e)) =
        let f : w ++ b'/' ∷ c ∷ s ≡ w ++ (b'/' ∷ b'/' ∷ rest) =
          e
          ∙ ap (λ (l : Bytes). l ++ rest) (closed_prefix_of_ne (w ++ slash) value_ne)
          ∙ append_assoc (w ++ slash) slash rest
          ∙ append_assoc w slash (slash ++ rest) in
        other_char (cc (append_cancel w (b'/' ∷ c ∷ s) (b'/' ∷ b'/' ∷ rest) f))
