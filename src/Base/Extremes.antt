-- ===== src/Base/Extremes.antt =====
-- `Math.max` and `Math.min` against their arguments.
use native.Mathlib.Omega.{arith}
use nasa_cpp.Base.Number.{Number, IsOrdered, ◌≼◌, max_num, min_num}

module _ {R : Type 0} ⦃num : Number R⦄ (laws : IsOrdered R) where
  open laws use {le_refl, le_total, lt-eq-not-le}

  pub le_max_right : (x y : R) → y ≼ max_num x y
  le_max_right x y = ground (arith, le_refl y, lt-eq-not-le x y, le_total x y)

  pub le_max_left : (x y : R) → x ≼ max_num x y
  le_max_left x y = ground (arith, le_refl x, lt-eq-not-le x y, le_total x y)

  pub min_le_left : (x y : R) → min_num x y ≼ x
  min_le_left x y = ground (arith, le_refl x, lt-eq-not-le y x, le_total x y)

  pub min_le_right : (x y : R) → min_num x y ≼ y
  min_le_right x y = ground (arith, le_refl y, lt-eq-not-le y x, le_total x y)
