-- ===== src/Onionbalance/Backends/Order.antt =====
-- The sort of internal/onionbalance/refresher.go.
use mathlib.Core.List.{Perm, perm_middle, append-nil}
use mathlib.Core.List.Perm
use tor_gateway.Base.{
  ◌≡◌, refl, inl, inr, Bool, true, false, List, [], ◌∷◌, ◌++◌, Bytes, eqb, ltb, if◌then◌else◌,
  Bool-cases, arith,
}
use tor_gateway.Tor.Onion.{OnionAddress}
use tor_gateway.Onionbalance.Backends.{
  bytes_gt, move_down, sort_from, reverse_onto, addr_gt, sort_addrs,
}

pub bytes_gt_asymmetric : (s t : Bytes) → bytes_gt s t ≡ true → bytes_gt t s ≡ false
unfolding bytes_gt
bytes_gt_asymmetric [] t h = absurd (cc h)
bytes_gt_asymmetric (a ∷ s) [] h = refl
bytes_gt_asymmetric (a ∷ s) (b ∷ t) h = elim (Bool-cases (eqb a b)) [
  | inl e ↦
      let same : eqb b a ≡ true = ground arith in
      rw (same, if◌then◌else◌) (bytes_gt_asymmetric s t (rw (e, if◌then◌else◌) at h))
  | inr e ↦
      let below : ltb b a ≡ true = rw (e, if◌then◌else◌) at h in
      let other : eqb b a ≡ false = ground arith in rw (other, if◌then◌else◌) (ground arith)
]

module _ {A : Type 0} (gt : A → A → Bool) where
  -- No element comes before one that is smaller.
  abbrev pub StartsAbove : A → List A → Type 0
  StartsAbove x [] = Unit
  StartsAbove x (y ∷ ys) = gt x y ≡ false

  abbrev pub IsAscending : List A → Type 0
  IsAscending [] = Unit
  IsAscending (x ∷ xs) = StartsAbove x xs × IsAscending xs

  StartsBelow : A → List A → Type 0
  StartsBelow x [] = Unit
  StartsBelow x (y ∷ ys) = gt y x ≡ false

  IsDescending : List A → Type 0
  unfolding StartsBelow
  IsDescending [] = Unit
  IsDescending (x ∷ xs) = StartsBelow x xs × IsDescending xs

  module _ (asym : (a b : A) → gt a b ≡ true → gt b a ≡ false) where
    move_down-StartsBelow :
        (x y : A) (ys : List A)
        → gt x y ≡ false
        → StartsBelow y ys
        → StartsBelow y (move_down gt x ys)
    unfolding move_down StartsBelow
    move_down-StartsBelow x y [] h k = h
    move_down-StartsBelow x y (z ∷ ys) h k = elim (Bool-cases (gt z x)) [
      | inl e ↦ rw (e, if◌then◌else◌) k
      | inr e ↦ rw (e, if◌then◌else◌) h
    ]

    move_down-IsDescending :
        (x : A) (ys : List A) → IsDescending ys → IsDescending (move_down gt x ys)
    unfolding move_down IsDescending StartsBelow
    move_down-IsDescending x [] h = (tt, tt)
    move_down-IsDescending x (y ∷ ys) h = elim (Bool-cases (gt y x)) [
      | inl e ↦
          rw (e, if◌then◌else◌)
            (move_down-StartsBelow x y ys (asym y x e) h.0, move_down-IsDescending x ys h.1)
      | inr e ↦ rw (e, if◌then◌else◌) (e, h)
    ]

    sort_from-IsDescending :
        (sorted xs : List A) → IsDescending sorted → IsDescending (sort_from gt sorted xs)
    unfolding sort_from
    sort_from-IsDescending sorted [] h = h
    sort_from-IsDescending sorted (x ∷ xs) h =
        sort_from-IsDescending (move_down gt x sorted) xs (move_down-IsDescending x sorted h)

  -- Every element of a descending list may follow what comes after it in reverse.
  Links : List A → List A → Type 0
  Links [] acc = Unit
  Links (x ∷ xs) acc = StartsAbove x acc

  Links-nil : (xs : List A) → Links xs []
  unfolding Links
  Links-nil [] = tt
  Links-nil (x ∷ xs) = tt

  reverse_onto-IsAscending :
      (acc xs : List A)
      → IsDescending xs
      → IsAscending acc
      → Links xs acc
      → IsAscending (reverse_onto acc xs)
  unfolding reverse_onto IsDescending StartsBelow Links
  reverse_onto-IsAscending acc [] h k l = k
  reverse_onto-IsAscending acc (x ∷ []) h k l = (l, k)
  reverse_onto-IsAscending acc (x ∷ y ∷ ys) h k l =
      reverse_onto-IsAscending (x ∷ acc) (y ∷ ys) h.1 (l, k) h.0

  move_down-perm : (x : A) (ys : List A) → Perm (move_down gt x ys) (x ∷ ys)
  unfolding move_down
  move_down-perm x [] = Perm.rfl
  move_down-perm x (y ∷ ys) = elim (Bool-cases (gt y x)) [
    | inl e ↦
        rw (e, if◌then◌else◌) (Perm.trans (Perm.cons y (move_down-perm x ys)) (Perm.swap x y ys))
    | inr e ↦ rw (e, if◌then◌else◌) Perm.rfl
  ]

  sort_from-perm : (sorted xs : List A) → Perm (sort_from gt sorted xs) (xs ++ sorted)
  unfolding sort_from
  sort_from-perm sorted [] = Perm.rfl
  sort_from-perm sorted (x ∷ xs) =
      Perm.trans (sort_from-perm (move_down gt x sorted) xs)
        (Perm.trans (Perm.append_left xs (move_down-perm x sorted)) (perm_middle xs sorted))

reverse_onto-perm : {A : Type 0} (acc xs : List A) → Perm (reverse_onto acc xs) (xs ++ acc)
unfolding reverse_onto
reverse_onto-perm acc [] = Perm.rfl
reverse_onto-perm acc (x ∷ xs) = Perm.trans (reverse_onto-perm (x ∷ acc) xs) (perm_middle xs acc)

module _ (sha3_256 : Bytes → Bytes) where
  pub sort_addrs-IsAscending :
      (xs : List OnionAddress) → IsAscending (addr_gt sha3_256) (sort_addrs sha3_256 xs)
  unfolding sort_addrs IsDescending Links
  sort_addrs-IsAscending xs =
      let gt = addr_gt sha3_256 in
      let down = sort_from-IsDescending gt (λ a b h. bytes_gt_asymmetric _ _ h) [] xs tt in
      reverse_onto-IsAscending gt [] (sort_from gt [] xs) down tt
        (Links-nil gt (sort_from gt [] xs))

  pub sort_addrs-perm : (xs : List OnionAddress) → Perm (sort_addrs sha3_256 xs) xs
  unfolding sort_addrs
  sort_addrs-perm xs =
      let gt = addr_gt sha3_256 in
      let reversed = reverse_onto-perm [] (sort_from gt [] xs) in
      rw (append-nil, append-nil) at
        (Perm.trans reversed (Perm.append_right [] (sort_from-perm gt [] xs)))
