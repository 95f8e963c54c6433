-- ===== src/Base/Bits.antt =====
-- Facts about the bits of a byte, by running through all bytes.
use Prim.Native.Nat.{ℕ, zero, suc, ◌<◌}
use mathlib.Core.Path.{◌≡◌}
use mathlib.Core.Bool.{Bool, true, ◌&&◌}
use native.Mathlib.Omega.{arith}

-- The test passes at 0 and at every number up to `n`, excluding `n`.
unfoldable pub passes_under : (ℕ → Bool) → ℕ → Bool
passes_under test zero = true
passes_under test (suc n) = passes_under test n && test n

passes_at : (test : ℕ → Bool) (n b : ℕ) → b < n → passes_under test n ≡ true → test b ≡ true
unfolding passes_under
passes_at test zero b lt h = elim lt [ ]
passes_at test (suc n) b lt h = ground (arith, passes_at test n b)

-- A test that all bytes pass, at one of them.
pub byte_passes : (test : ℕ → Bool) {b : ℕ} → passes_under test 256 ≡ true → b < 256 → test b ≡ true
byte_passes test {b} h lt = passes_at test 256 b lt h
