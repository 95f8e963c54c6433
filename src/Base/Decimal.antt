-- ===== src/Base/Decimal.antt =====
-- Decimal numbers, as Go's `%d` prints them.
use Prim.Native.Nat.{ℕ, zero, suc, ◌+◌, ◌*◌, ◌/◌, ◌%◌, ◌-◌, ◌≤◌, ◌<◌}
use mathlib.Core.Path.{◌≡◌, sym, ap, ◌∙◌}
use mathlib.Core.Logic.{inl, inr}
use mathlib.Core.List.{[], ◌∷◌}
use native.Mathlib.Omega.{arith}
use tor_gateway.Base.Tests.{ltb, if◌then◌else◌, Bool-cases}
use tor_gateway.Base.Text.{Bytes}

-- The digits of `n`, before those that stand already. Each round divides by ten, so that `n` rounds
-- and one more are enough.
digits_before : ℕ → ℕ → Bytes → Bytes
digits_before zero n rest = rest
digits_before (suc f) n rest =
    let more = digits_before f (n / 10) ((n % 10 + b'0') ∷ rest) in
    if ltb n 10 then (n + b'0') ∷ rest else more

unfoldable pub decimal : ℕ → Bytes
unfolding digits_before
decimal n = digits_before (suc n) n []

-- The number that a run of digits stands for, after `acc`.
value_from : ℕ → Bytes → ℕ
value_from acc [] = acc
value_from acc (c ∷ s) = value_from (acc * 10 + (c - b'0')) s

value-digits_before :
    (f n : ℕ) (rest : Bytes) → n < f → value_from 0 (digits_before f n rest) ≡ value_from n rest
unfolding digits_before value_from
value-digits_before zero n rest h = absurd (omega arith)
value-digits_before (suc f) n rest h = elim (Bool-cases (ltb n 10)) [
  | inl e ↦ rw (e, if◌then◌else◌) (ap (λ (m : ℕ). value_from m rest) (omega arith))
  | inr e ↦
      let big : 10 ≤ n = ground arith in
      rw (e, if◌then◌else◌)
        (value-digits_before f (n / 10) ((n % 10 + b'0') ∷ rest) (omega arith)
          ∙ ap (λ (m : ℕ). value_from m rest) (omega arith))
]

-- Different numbers print differently.
pub decimal_injective : (m n : ℕ) → decimal m ≡ decimal n → m ≡ n
unfolding decimal value_from
decimal_injective m n e =
    sym (value-digits_before (suc m) m [] (omega arith))
    ∙ ap (value_from 0) e
    ∙ value-digits_before (suc n) n [] (omega arith)
