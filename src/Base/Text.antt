-- ===== src/Base/Text.antt =====
-- Go strings that the program walks, as lists of bytes.
use Prim.Native.Nat.{ℕ}
use Prim.Native.Char.{code}
use Prim.Native.String.{String}
use mathlib.Core.Path.{◌≡◌, refl, ap₂}
use mathlib.Core.Logic.{◌↔◌, ◌≢◌}
use mathlib.Core.Bool.{Bool, true, false, ◌&&◌}
use mathlib.Core.List.{List, [], ◌∷◌, ◌++◌}
use text.Mathlib.TextEquality.{Char-path}
use tor_gateway.Base.Lists.{All}
use tor_gateway.Base.Tests.{eqb, eqb_iff, eqb_refl, and_parts}

abbrev pub Bytes : Type 0
Bytes = List ℕ

-- The code points of a text, which are its bytes where it is ASCII.
abbrev pub codes : String → Bytes
codes String.[] = []
codes (String.◌∷◌ c s) = code c ∷ codes s

unfoldable pub bytes_eq : Bytes → Bytes → Bool
bytes_eq [] [] = true
bytes_eq (a ∷ s) (b ∷ t) = eqb a b && bytes_eq s t
bytes_eq _ _ = false

pub bytes_eq_sound : (s t : Bytes) → bytes_eq s t ≡ true → s ≡ t
unfolding bytes_eq
bytes_eq_sound [] [] h = refl
bytes_eq_sound (a ∷ s) (b ∷ t) h =
    let (p, q) = and_parts (eqb a b) (bytes_eq s t) h in
    cc ((eqb_iff a b).0 p, bytes_eq_sound s t q)
bytes_eq_sound _ _ h = cc

pub bytes_eq_refl : (s : Bytes) → bytes_eq s s ≡ true
unfolding bytes_eq
bytes_eq_refl [] = refl
bytes_eq_refl (a ∷ s) = rw (eqb_refl a) (bytes_eq_refl s)

pub bytes_eq_iff : (s t : Bytes) → (bytes_eq s t ≡ true) ↔ (s ≡ t)
bytes_eq_iff s t = (bytes_eq_sound s t, λ e. rw e (bytes_eq_refl t))

pub codes_injective : (s t : String) → codes s ≡ codes t → s ≡ t
codes_injective String.[] String.[] e = refl
codes_injective (String.◌∷◌ c s) (String.◌∷◌ d t) e =
    ap₂ String.◌∷◌ (Char-path c d (cc)) (codes_injective s t (cc))
codes_injective _ _ e = cc

-- Without the separator `d` in it, what stands before the first `d` is determined.
pub cut_unique :
    (d : ℕ) (a b x y : Bytes)
    → All (λ (c : ℕ). c ≢ d) a
    → All (λ (c : ℕ). c ≢ d) b
    → a ++ d ∷ x ≡ b ++ d ∷ y
    → (a ≡ b) × (x ≡ y)
cut_unique d [] [] x y h k e = (refl, cc)
cut_unique d [] (c ∷ b) x y h k e = absurd (k.0 (cc))
cut_unique d (c ∷ a) [] x y h k e = absurd (h.0 (cc))
cut_unique d (c ∷ a) (c' ∷ b) x y h k e = let (p, q) = cut_unique d a b x y h.1 k.1 (cc) in (cc, q)

-- A common beginning cancels.
pub append_cancel : (w x y : Bytes) → w ++ x ≡ w ++ y → x ≡ y
append_cancel [] x y e = e
append_cancel (c ∷ w) x y e = append_cancel w x y (cc)
