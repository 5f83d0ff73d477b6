-- ===== src/Base/Bits.antt =====
-- A word as a set of bits: `s & (1 << d) != 0` and `s | (1 << d)`, by recursion on the position.
use Prim.Native.Nat.{ℕ, zero, suc, ◌+◌, ◌*◌, ◌/◌, ◌%◌, ◌^◌, ◌<◌}
use mathlib.Core.Path.{◌≡◌, refl}
use mathlib.Core.Bool.{Bool, false, ◌||◌}
use native.Mathlib.Omega.{arith}
use native.Mathlib.Nat.{pow-suc}
use runeverything.Base.Tests.{◌==◌}

unfoldable pub test_bit : ℕ → ℕ → Bool
test_bit s zero = s % 2 == 1
test_bit s (suc d) = test_bit (s / 2) d

unfoldable pub set_bit : ℕ → ℕ → ℕ
set_bit s zero = s / 2 * 2 + 1
set_bit s (suc d) = set_bit (s / 2) d * 2 + s % 2

pub test_bit-zero : (d : ℕ) → test_bit 0 d ≡ false
unfolding test_bit
test_bit-zero zero = refl
test_bit-zero (suc d) = test_bit-zero d

halves : (a b : ℕ) → b < 2 → (a * 2 + b) / 2 ≡ a
halves a b h = omega arith

-- Setting a bit changes that bit alone.
pub test_bit-set_bit : (s d e : ℕ) → test_bit (set_bit s d) e ≡ (d == e || test_bit s e)
unfolding test_bit set_bit
test_bit-set_bit s zero zero = ground arith
test_bit-set_bit s zero (suc e) = rw (halves (s / 2) 1 (omega arith)) (ground arith)
test_bit-set_bit s (suc d) zero = ground arith
test_bit-set_bit s (suc d) (suc e) =
    rw (halves (set_bit (s / 2) d) (s % 2) (omega arith))
      (ground (arith, test_bit-set_bit (s / 2) d e))

-- A bit below `w` keeps a word of `w` bits a word of `w` bits.
pub set_bit-lt : (w s d : ℕ) → s < 2 ^ w → d < w → set_bit s d < 2 ^ w
unfolding set_bit
set_bit-lt zero s d h k = absurd (omega arith)
set_bit-lt (suc w) s zero h k = omega (arith, pow-suc 2 w)
set_bit-lt (suc w) s (suc d) h k = omega (arith, pow-suc 2 w, set_bit-lt w (s / 2) d)
