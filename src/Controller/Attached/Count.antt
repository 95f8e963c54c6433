-- ===== src/Controller/Attached/Count.antt =====
-- What the counts of internal/controller/httproute_controller.go count.
use tor_gateway.Base.{
  ℕ, ◌+◌, ◌%◌, ◌≡◌, refl, sym, ap, ◌∙◌, inl, inr, String, Bool, true, false, Option, none, some,
  List, [], ◌∷◌, map, any, if◌then◌else◌, ◌&&◌, ◌||◌, ◌==◌, eq_iff, Bool-cases, arith,
}
use tor_gateway.Api.{ParentReference, HttpRoute}
use tor_gateway.Controller.Attached.{
  Counts, parent_ref_matches, int32_inc, lookup, put_zero, zero_counts, bump, bump_entry,
  bump_section, count_parents, count_routes,
}

-- A reference to the listener, or to every listener.
abbrev section_is : Option String → String → Bool
section_is none name = true
section_is (some s) name = s == name

-- How many references of the routes attach to a listener of that name.
unfoldable pub hits : String → String → String → String → List ParentReference → ℕ
hits gw_name gw_ns route_ns name [] = 0
hits gw_name gw_ns route_ns name (pr ∷ prs) =
    let rest = hits gw_name gw_ns route_ns name prs in
    if parent_ref_matches pr gw_name gw_ns route_ns && section_is pr.section_name name
    then 1 + rest
    else rest

unfoldable pub all_hits : String → String → String → List HttpRoute → ℕ
unfolding hits
all_hits gw_name gw_ns name [] = 0
all_hits gw_name gw_ns name (route ∷ routes) =
    hits gw_name gw_ns route.namespace name route.parent_refs + all_hits gw_name gw_ns name routes

inc_if : Bool → Option ℕ → Option ℕ
inc_if b none = none
inc_if true (some n) = some (int32_inc n)
inc_if false (some n) = some n

inc_if-false : (o : Option ℕ) → inc_if false o ≡ o
unfolding inc_if
inc_if-false none = refl
inc_if-false (some n) = refl

lookup-here :
    (k j : String) (n : ℕ) (cs : Counts) → (j == k) ≡ true → lookup k ((j, n) ∷ cs) ≡ some n
unfolding lookup
lookup-here k j n cs e = rw (e, if◌then◌else◌) refl

lookup-there :
    (k j : String) (n : ℕ) (cs : Counts) → (j == k) ≡ false → lookup k ((j, n) ∷ cs) ≡ lookup k cs
unfolding lookup
lookup-there k j n cs e = rw (e, if◌then◌else◌) refl

-- Equal texts compare alike, and a text differs from a text that differs from its equal.
same_test : (j s k : String) → (j == s) ≡ true → (s == k) ≡ (j == k)
same_test j s k e = ap (λ x. x == k) (sym ((eq_iff j s).0 e))

other_test : (j s k : String) → (j == s) ≡ false → (j == k) ≡ true → (s == k) ≡ false
other_test j s k e d = elim (Bool-cases (s == k)) [
  | inl h ↦ absurd (cc (e, (eq_iff j s).1 ((eq_iff j k).0 d ∙ sym ((eq_iff s k).0 h))))
  | inr h ↦ h
]

lookup-bump_here :
    (k s j : String) (n : ℕ) (cs : Counts)
    → (j == s) ≡ true
    → lookup k (bump s ((j, n) ∷ cs)) ≡ inc_if (s == k) (lookup k ((j, n) ∷ cs))
unfolding bump inc_if
lookup-bump_here k s j n cs e =
    rw (e, if◌then◌else◌, same_test j s k e)
      (elim (Bool-cases (j == k)) [
        | inl d ↦ rw (lookup-here k j n cs d, d) (lookup-here k j (int32_inc n) cs d)
        | inr d ↦
            rw (lookup-there k j n cs d, d)
              (lookup-there k j (int32_inc n) cs d ∙ sym (inc_if-false (lookup k cs)))
      ])

lookup-bump : (k s : String) (cs : Counts) → lookup k (bump s cs) ≡ inc_if (s == k) (lookup k cs)
unfolding bump inc_if lookup
lookup-bump k s [] = refl
lookup-bump k s ((j, n) ∷ cs) = elim (Bool-cases (j == s)) [
  | inl e ↦ lookup-bump_here k s j n cs e
  | inr e ↦
      rw (e, if◌then◌else◌)
        (elim (Bool-cases (j == k)) [
          | inl d ↦ rw (d, other_test j s k e d, if◌then◌else◌) refl
          | inr d ↦ rw (d, if◌then◌else◌) (lookup-bump k s cs)
        ])
]

lookup-bump_entry :
    (k : String) (cs : Counts) → lookup k (map bump_entry cs) ≡ inc_if true (lookup k cs)
unfolding inc_if lookup
lookup-bump_entry k [] = refl
lookup-bump_entry k ((j, n) ∷ cs) = elim (Bool-cases (j == k)) [
  | inl d ↦ rw (d, if◌then◌else◌) refl
  | inr d ↦ rw (d, if◌then◌else◌) (lookup-bump_entry k cs)
]

lookup-bump_section :
    (k : String) (section : Option String) (cs : Counts)
    → lookup k (bump_section section cs) ≡ inc_if (section_is section k) (lookup k cs)
unfolding bump_section
lookup-bump_section k none cs = lookup-bump_entry k cs
lookup-bump_section k (some s) cs = lookup-bump k s cs

module _ (gw_name gw_ns : String) (k : String) where
  -- A count that stands for `m` modulo 2^32 afterwards stands for `m` and the hits.
  count_parents-lookup :
      (route_ns : String) (cs : Counts) (prs : List ParentReference) (m : ℕ)
      → lookup k cs ≡ some (m % 0x100000000)
      → lookup k (count_parents gw_name gw_ns route_ns cs prs)
        ≡ some ((m + hits gw_name gw_ns route_ns k prs) % 0x100000000)
  unfolding count_parents hits inc_if
  count_parents-lookup route_ns cs [] m e = e ∙ ap some (omega arith)
  count_parents-lookup route_ns cs (pr ∷ prs) m e =
      let next = lookup-bump_section k pr.section_name cs in
      let rest = hits gw_name gw_ns route_ns k prs in
      elim (Bool-cases (parent_ref_matches pr gw_name gw_ns route_ns)) [
        | inl d ↦ elim (Bool-cases (section_is pr.section_name k)) [
          | inl c ↦
              let bumped : lookup k (bump_section pr.section_name cs)
                  ≡ some ((m + 1) % 0x100000000) =
                next ∙ rw (c, e) (ap some (omega arith)) in
              let sum : m + 1 + rest ≡ m + (1 + rest) = omega arith in
              rw (d, c, if◌then◌else◌)
                (count_parents-lookup route_ns (bump_section pr.section_name cs) prs (m + 1) bumped
                  ∙ ap (λ (x : ℕ). some (x % 0x100000000)) sum)
          | inr c ↦
              rw (d, c, if◌then◌else◌)
                (count_parents-lookup route_ns (bump_section pr.section_name cs) prs m
                  (next ∙ rw (c, e) refl))
        ]
        | inr d ↦ rw (d, if◌then◌else◌) (count_parents-lookup route_ns cs prs m e)
      ]

  -- A name that the map does not have is never added.
  count_parents-absent :
      (route_ns : String) (cs : Counts) (prs : List ParentReference)
      → lookup k cs ≡ none
      → lookup k (count_parents gw_name gw_ns route_ns cs prs) ≡ none
  unfolding count_parents inc_if
  count_parents-absent route_ns cs [] e = e
  count_parents-absent route_ns cs (pr ∷ prs) e =
      elim (Bool-cases (parent_ref_matches pr gw_name gw_ns route_ns)) [
        | inl d ↦
            rw (d, if◌then◌else◌)
              (count_parents-absent route_ns (bump_section pr.section_name cs) prs
                (lookup-bump_section k pr.section_name cs ∙ rw e refl))
        | inr d ↦ rw (d, if◌then◌else◌) (count_parents-absent route_ns cs prs e)
      ]

  pub count_routes-lookup :
      (cs : Counts) (routes : List HttpRoute) (m : ℕ)
      → lookup k cs ≡ some (m % 0x100000000)
      → lookup k (count_routes gw_name gw_ns cs routes)
        ≡ some ((m + all_hits gw_name gw_ns k routes) % 0x100000000)
  unfolding count_routes all_hits
  count_routes-lookup cs [] m e = e ∙ ap some (omega arith)
  count_routes-lookup cs (route ∷ routes) m e =
      let h = hits gw_name gw_ns route.namespace k route.parent_refs in
      let rest = all_hits gw_name gw_ns k routes in
      let sum : m + h + rest ≡ m + (h + rest) = omega arith in
      count_routes-lookup (count_parents gw_name gw_ns route.namespace cs route.parent_refs) routes
        (m + h) (count_parents-lookup route.namespace cs route.parent_refs m e)
      ∙ ap (λ (x : ℕ). some (x % 0x100000000)) sum

  pub count_routes-absent :
      (cs : Counts) (routes : List HttpRoute)
      → lookup k cs ≡ none
      → lookup k (count_routes gw_name gw_ns cs routes) ≡ none
  unfolding count_routes
  count_routes-absent cs [] e = e
  count_routes-absent cs (route ∷ routes) e =
      count_routes-absent (count_parents gw_name gw_ns route.namespace cs route.parent_refs) routes
        (count_parents-absent route.namespace cs route.parent_refs e)

abbrev pub has_name : String → List String → Bool
has_name k ls = any (λ l. l == k) ls

put_zero-lookup :
    (k l : String) (o : Option ℕ) (cs : Counts) (b : Bool)
    → lookup l cs ≡ o
    → lookup k cs ≡ (if b then some 0 else none)
    → lookup k (put_zero o l cs) ≡ (if (l == k) || b then some 0 else none)
unfolding put_zero lookup
put_zero-lookup k l none cs b e h = elim (Bool-cases (l == k)) [
  | inl d ↦ rw (d, if◌then◌else◌) refl
  | inr d ↦ rw (d, if◌then◌else◌) h
]
put_zero-lookup k l (some n) cs true e h = elim (Bool-cases (l == k)) [
  | inl d ↦ rw (d, if◌then◌else◌) h
  | inr d ↦ rw (d, if◌then◌else◌) h
]
put_zero-lookup k l (some n) cs false e h = elim (Bool-cases (l == k)) [
  | inl d ↦ absurd (cc (e, h, (eq_iff l k).0 d))
  | inr d ↦ rw (d, if◌then◌else◌) h
]

pub zero_counts-lookup :
    (k : String) (ls : List String)
    → lookup k (zero_counts ls) ≡ (if has_name k ls then some 0 else none)
unfolding zero_counts lookup
zero_counts-lookup k [] = refl
zero_counts-lookup k (l ∷ ls) =
    put_zero-lookup k l (lookup l (zero_counts ls)) (zero_counts ls) (has_name k ls) refl
      (zero_counts-lookup k ls)
