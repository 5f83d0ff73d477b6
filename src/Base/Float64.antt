-- ===== src/Base/Float64.antt =====
-- Go's float64. The library has no floating point, so the finite non-negative numbers are a type
-- `F` with the operations that the program uses, and what it relies on is a record of laws.
use Prim.Native.Nat.{ℕ, ◌/◌, ◌*◌, ◌+◌, ◌≤◌, ◌<◌, ◌^◌}
use mathlib.Core.Path.{◌≡◌, refl}
use mathlib.Core.Bool.{Bool, false}
use native.Mathlib.Omega.{arith}
use runeverything.Base.Tests.{ltb}

pub record Float64 (F : Type 0) : Type 0 where
  pub of_int : ℕ → F
  -- The conversion to an integer, which drops the fraction.
  pub to_int : F → ℕ
  pub add : F → F → F
  pub mul : F → F → F
  pub div : F → F → F
  pub lt : F → F → Bool

-- IEEE 754 on finite non-negative numbers: small integers are exact, the order is total, rounding
-- is monotone.
pub record FloatLaws (F : Type 0) ⦃fl : Float64 F⦄ : Type 0 where
  pub lt-of_int : (m n : ℕ) → m < 2 ^ 53 → n < 2 ^ 53 → fl.lt (fl.of_int m) (fl.of_int n) ≡ ltb m n
  pub to_int-of_int : (n : ℕ) → n < 2 ^ 53 → fl.to_int (fl.of_int n) ≡ n
  pub to_int-mono : (a b : F) → fl.lt b a ≡ false → fl.to_int a ≤ fl.to_int b
  pub le_trans : (a b c : F) → fl.lt b a ≡ false → fl.lt c b ≡ false → fl.lt c a ≡ false
  pub le-add : (a b : F) → fl.lt (fl.add a b) a ≡ false
  pub half-le : (a : F) → fl.lt a (fl.div a (fl.of_int 2)) ≡ false

-- Whole numbers satisfy the laws.
instance abbrev pub whole : Float64 ℕ
whole = record { of_int = λ n. n; to_int = λ x. x; add = ◌+◌; mul = ◌*◌; div = ◌/◌; lt = ltb }

pub whole-FloatLaws : FloatLaws ℕ
whole-FloatLaws = record {
  lt-of_int = λ m n hm hn. refl;
  to_int-of_int = λ n h. refl;
  to_int-mono = λ a b h. ground arith;
  le_trans = λ a b c h k. ground arith;
  le-add = λ a b. ground arith;
  half-le = λ a. ground arith;
}
