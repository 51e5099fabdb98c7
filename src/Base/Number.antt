-- ===== src/Base/Number.antt =====
-- JavaScript numbers. The program computes with doubles; the model takes them as a type with the
-- operations that the source uses, each with its own rounding. The laws, where a theorem needs
-- them, are those of IEEE arithmetic on values that are not NaN and do not overflow, with the two
-- zeros as one value: rounding keeps order, and subtraction keeps signs.
use Prim.Native.Nat.{ℕ, ◌≤◌, ◌<◌, ◌^◌, ◌*◌}
use mathlib.Core.Path.{◌≡◌}
use mathlib.Core.Logic.{◌⊎◌}
use mathlib.Core.Bool.{Bool, true, not, ◌&&◌}
use nasa_cpp.Base.Tests.{if◌then◌else◌}

pub record Number (R : Type 0) : Type 0 where
  pub of_nat : ℕ → R
  pub decimal : ℕ → ℕ → R  -- decimal m e is the literal m · 10^-e
  pub plus : R → R → R
  pub minus : R → R → R
  pub times : R → R → R
  pub over : R → R → R
  pub floor : R → R  -- Math.floor
  pub round : R → R  -- Math.round
  pub is_integer : R → Bool  -- Number.isInteger
  pub is_nan : R → Bool  -- Number.isNaN
  pub lt : R → R → Bool
  pub le : R → R → Bool
  pub same : R → R → Bool  -- ===

module _ {R : Type 0} ⦃num : Number R⦄ where
  infixl 65 ◌⊕◌ ◌⊖◌
  infixl 70 ◌⊗◌ ◌⊘◌
  infix 50 ◌≼◌ ◌≺◌
  abbrev pub ◌⊕◌ : R → R → R
  x ⊕ y = num.plus x y

  abbrev pub ◌⊖◌ : R → R → R
  x ⊖ y = num.minus x y

  abbrev pub ◌⊗◌ : R → R → R
  x ⊗ y = num.times x y

  abbrev pub ◌⊘◌ : R → R → R
  x ⊘ y = num.over x y

  abbrev pub ◌≼◌ : R → R → Type 0
  x ≼ y = num.le x y ≡ true

  abbrev pub ◌≺◌ : R → R → Type 0
  x ≺ y = num.lt x y ≡ true

  -- Math.max and Math.min, of numbers that are not NaN
  abbrev pub max_num : R → R → R
  max_num x y = if num.lt x y then y else x

  abbrev pub min_num : R → R → R
  min_num x y = if num.lt y x then y else x

  abbrev pub abs_num : R → R
  abs_num x = if num.lt x (num.of_nat 0) then num.of_nat 0 ⊖ x else x

-- The order of the values that are not NaN.
pub record IsOrdered (R : Type 0) ⦃num : Number R⦄ : Type 0 where
  pub le_refl : (x : R) → x ≼ x
  pub le_trans : (x y z : R) → x ≼ y → y ≼ z → x ≼ z
  pub le_total : (x y : R) → (x ≼ y) ⊎ (y ≼ x)
  pub lt-eq-not-le : (x y : R) → num.lt x y ≡ not (num.le y x)
  pub same-eq-and_le : (x y : R) → num.same x y ≡ (num.le x y && num.le y x)

-- Rounded arithmetic.
pub record IsRounded (R : Type 0) ⦃num : Number R⦄ : Type 0 where
  pub ordered : IsOrdered R
  pub of_nat_mono : (a b : ℕ) → a ≤ b → num.of_nat a ≼ num.of_nat b
  pub of_nat_lt : (a b : ℕ) → a < b → b ≤ 2 ^ 53 → num.of_nat a ≺ num.of_nat b
  pub decimal_nonneg : (m e : ℕ) → num.of_nat 0 ≼ num.decimal m e
  pub decimal-le : (m e k : ℕ) → m ≤ k * 10 ^ e → num.decimal m e ≼ num.of_nat k
  pub add_comm : (x y : R) → x ⊕ y ≡ y ⊕ x
  pub add_mono : (x y z : R) → y ≼ z → x ⊕ y ≼ x ⊕ z
  pub add_zero : (x : R) → x ⊕ num.of_nat 0 ≡ x
  pub add_of_sub : (x y z : R) → z ≺ y ⊖ x → x ⊕ z ≼ y
  pub sub_mono : (x y z : R) → x ≼ y → x ⊖ z ≼ y ⊖ z
  pub sub_anti : (x y z : R) → y ≼ z → x ⊖ z ≼ x ⊖ y
  pub sub_zero : (x : R) → x ⊖ num.of_nat 0 ≡ x
  pub sub_self : (x : R) → x ⊖ x ≡ num.of_nat 0
  pub sub_pos : (x y : R) → x ≺ y → num.of_nat 0 ≺ y ⊖ x
  pub mul_comm : (x y : R) → x ⊗ y ≡ y ⊗ x
  pub mul_mono : (x y z : R) → num.of_nat 0 ≼ z → x ≼ y → x ⊗ z ≼ y ⊗ z
  pub mul_anti : (x y z : R) → z ≼ num.of_nat 0 → x ≼ y → y ⊗ z ≼ x ⊗ z
  pub zero_mul : (x : R) → num.of_nat 0 ⊗ x ≡ num.of_nat 0
  pub one_mul : (x : R) → num.of_nat 1 ⊗ x ≡ x
  pub div_mono : (x y z : R) → num.of_nat 0 ≺ z → x ≼ y → x ⊘ z ≼ y ⊘ z
  pub div_exact :
      (a b : ℕ) → 0 < b → a * b ≤ 2 ^ 53 → num.of_nat (a * b) ⊘ num.of_nat b ≡ num.of_nat a
  pub floor-le : (x : R) → num.floor x ≼ x
  pub le-floor : (a : ℕ) (x : R) → num.of_nat a ≼ x → num.of_nat a ≼ num.floor x
  pub zero_div : (x : R) → num.of_nat 0 ≺ x → num.of_nat 0 ⊘ x ≡ num.of_nat 0
  pub div_self : (x : R) → num.of_nat 0 ≺ x → x ⊘ x ≡ num.of_nat 1
