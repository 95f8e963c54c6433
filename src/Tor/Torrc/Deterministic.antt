-- ===== src/Tor/Torrc/Deterministic.antt =====
-- The text of internal/tor/torrc.go, and the order of a map.
use mathlib.Core.Logic.{∥∥₁_elim, ∥∥₁_map}
use mathlib.Core.Bool.{Bool-set}
use mathlib.Core.List.{Mem, Perm}
use mathlib.Core.List.Perm
use tor_gateway.Base.{
  ◌≡◌, refl, sym, ◌∙◌, inl, inr, Bool, true, false, Option, none, some, List, [], ◌∷◌, Memᴰ, Bytes,
  any, any-mem, mem-any, if◌then◌else◌, Bool-cases,
}
use tor_gateway.Tor.ClientAuth.{value_at}
use tor_gateway.Tor.Torrc.{
  TorrcConfig, TorrcError, Rendered, bad_key, keys_of, directive_error, or_else, field_error,
  directive_lines, extra_lines, torrc_text, validate, unless_invalid, render_torrc,
}

-- The two lists of entries are the same map.
pub record IsSameMap (xs ys : List (Bytes × Bytes)) : Type 0 where
  pub keys : Perm (keys_of xs) (keys_of ys)
  pub values : (k : Bytes) → value_at k xs ≡ value_at k ys

directive_lines_same :
    (xs ys : List (Bytes × Bytes)) (ks : List Bytes)
    → ((k : Bytes) → value_at k xs ≡ value_at k ys)
    → directive_lines xs ks ≡ directive_lines ys ks
unfolding directive_lines
directive_lines_same xs ys [] h = refl
directive_lines_same xs ys (k ∷ ks) h = rw (h k, directive_lines_same xs ys ks h) refl

extra_lines_same :
    (xs ys : List (Bytes × Bytes)) (ks : List Bytes)
    → ((k : Bytes) → value_at k xs ≡ value_at k ys)
    → extra_lines xs ks ≡ extra_lines ys ks
unfolding extra_lines
extra_lines_same xs ys [] h = refl
extra_lines_same xs ys (k ∷ ks) h = rw (directive_lines_same xs ys (k ∷ ks) h) refl

any_of_perm :
    (p : Bytes → Bool) (xs ys : List Bytes) → Perm xs ys → any p xs ≡ true → any p ys ≡ true
any_of_perm p xs ys perm h =
    let (a, i, e) = any-mem p xs h in
    ∥∥₁_elim ((Perm.mem_iff perm).0 ∣ i ∣₁) (Bool-set (any p ys) true) (λ d. mem-any p ys d e)

no_bad : (ks : List Bytes) (k : Bytes) → any bad_key ks ≡ false → Mem k ks → bad_key k ≡ true → ⊥
no_bad ks k h i b = ∥∥₁_elim i (λ x y. absurd x) (λ d. absurd (cc (h, mem-any bad_key ks d b)))

any_perm : (p : Bytes → Bool) (xs ys : List Bytes) → Perm xs ys → any p xs ≡ any p ys
any_perm p xs ys perm = elim (Bool-cases (any p xs)) [
  | inl h ↦ h ∙ sym (any_of_perm p xs ys perm h)
  | inr h ↦ elim (Bool-cases (any p ys)) [
    | inl k ↦ absurd (cc (sym (any_of_perm p ys xs (Perm.symm perm) k) ∙ h))
    | inr k ↦ h ∙ sym k
  ]
]

-- What the loop over the keys finds.
data Found (ks : List Bytes) : Type 0 where
  all_good : directive_error ks ≡ none → any bad_key ks ≡ false → Found ks
  bad :
      (k : Bytes)
      → Mem k ks
      → bad_key k ≡ true
      → directive_error ks ≡ some (TorrcError.bad_directive k)
      → Found ks

found : (ks : List Bytes) → Found ks
unfolding directive_error
found [] = Found.all_good refl refl
found (k ∷ ks) = elim (Bool-cases (bad_key k)) [
  | inl e ↦ Found.bad k ∣ Memᴰ.head refl ∣₁ e (rw (e, if◌then◌else◌) refl)
  | inr e ↦ later e (found ks)
]
  where
    later : bad_key k ≡ false → Found ks → Found (k ∷ ks)
    later e (Found.all_good n a) = Found.all_good (rw (e, if◌then◌else◌) n) (rw (e, a) refl)
    later e (Found.bad l i b n) =
        Found.bad l (∥∥₁_map i (λ j. Memᴰ.tail j)) b (rw (e, if◌then◌else◌) n)

-- The same text or the same error, or each an error that names a bad key of its own list.
pub data IsAlike (xs ys : List Bytes) : Rendered → Rendered → Type 0 where
  same : (r : Rendered) → IsAlike xs ys r r
  both_bad :
      (k l : Bytes)
      → Mem k xs
      → bad_key k ≡ true
      → Mem l ys
      → bad_key l ≡ true
      → IsAlike xs ys
          (Rendered.invalid (TorrcError.bad_directive k))
          (Rendered.invalid (TorrcError.bad_directive l))

unless_invalid-IsAlike :
    (xs ys : List Bytes) (e : Option TorrcError) (text : Bytes)
    → Perm xs ys
    → IsAlike xs ys
        (unless_invalid (or_else e (directive_error xs)) text)
        (unless_invalid (or_else e (directive_error ys)) text)
unfolding or_else unless_invalid
unless_invalid-IsAlike xs ys (some e) text perm = IsAlike.same _
unless_invalid-IsAlike xs ys none text perm = alike (found xs) (found ys)
  where
    alike :
        Found xs
        → Found ys
        → IsAlike xs ys
            (unless_invalid (directive_error xs) text)
            (unless_invalid (directive_error ys) text)
    alike (Found.all_good e a) (Found.all_good f b) = rw (e, f) (IsAlike.same _)
    alike (Found.bad k i b e) (Found.bad l j d f) = rw (e, f) (IsAlike.both_bad k l i b j d)
    alike (Found.all_good e a) (Found.bad l j d f) =
        absurd (no_bad ys l (sym (any_perm bad_key xs ys perm) ∙ a) j d)
    alike (Found.bad k i b e) (Found.all_good f a) =
        absurd (no_bad xs k (any_perm bad_key xs ys perm ∙ a) i b)

module _ (is_loopback : Bytes → Bool) (join : Bytes → Bytes → Bytes)
    (sort_strings : List Bytes → List Bytes) (c : TorrcConfig) (xs ys : List (Bytes × Bytes))
    (same : IsSameMap xs ys) where
  torrc_text_same :
      sort_strings (keys_of xs) ≡ sort_strings (keys_of ys)
      → torrc_text sort_strings (record c { extra_directives = xs })
        ≡ torrc_text sort_strings (record c { extra_directives = ys })
  unfolding torrc_text
  torrc_text_same e = rw (e, extra_lines_same xs ys (sort_strings (keys_of ys)) same.values) refl

  -- Whatever the order in which a map of extra directives is listed, the configuration renders to the
  -- same text, or is refused with the same error but for which of its bad keys is named, if sorting
  -- puts the keys in one order.
  pub render_torrc-IsAlike :
      sort_strings (keys_of xs) ≡ sort_strings (keys_of ys)
      → IsAlike
          (keys_of xs)
          (keys_of ys)
          (render_torrc is_loopback join sort_strings (record c { extra_directives = xs }))
          (render_torrc is_loopback join sort_strings (record c { extra_directives = ys }))
  unfolding render_torrc validate field_error
  render_torrc-IsAlike e = rw (torrc_text_same e) (
      unless_invalid-IsAlike (keys_of xs) (keys_of ys)
        (field_error is_loopback join (record c { extra_directives = ys }))
        (torrc_text sort_strings (record c { extra_directives = ys })) same.keys)
