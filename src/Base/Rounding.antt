-- ===== src/Base/Rounding.antt =====
-- Lemmas on rounded numbers that several parts of the page share.
use Prim.Native.Nat.{ℕ, ◌*◌, ◌^◌, ◌≤◌, ◌<◌}
use mathlib.Core.Path.{◌≡◌}
use mathlib.Core.Bool.{true, false}
use native.Mathlib.Omega.{arith}
use nasa_cpp.Base.Number.{Number, IsRounded, ◌⊘◌, ◌≼◌, ◌≺◌}

module _ {R : Type 0} ⦃num : Number R⦄ (laws : IsRounded R) where
  open laws use {ordered, of_nat_lt, div_mono, div_exact, floor-le, le-floor}
  open ordered use {le_refl, le_total, lt-eq-not-le, le_trans}

  pub lt→le : (x y : R) → x ≺ y → x ≼ y
  lt→le x y h = ground (arith, lt-eq-not-le x y, le_total x y)

  pub floor_range :
      (x : R) (a b : ℕ)
      → num.of_nat a ≼ x
      → x ≼ num.of_nat b
      → (num.of_nat a ≼ num.floor x) × (num.floor x ≼ num.of_nat b)
  floor_range x a b h k = (le-floor a x h, le_trans (num.floor x) x (num.of_nat b) (floor-le x) k)

  -- Dividing by `k` takes the range from `a * k` to `b * k` to that from `a` to `b`.
  pub scaled_low :
      (x : R) (a k : ℕ)
      → 0 < k
      → a * k ≤ 2 ^ 53
      → k ≤ 2 ^ 53
      → num.of_nat (a * k) ≼ x
      → num.of_nat a ≼ x ⊘ num.of_nat k
  scaled_low x a k pos small fits h =
      let low = div_mono (num.of_nat (a * k)) x (num.of_nat k) (of_nat_lt 0 k pos fits) h in
      rw (div_exact a k pos small) at low

  pub scaled_high :
      (x : R) (b k : ℕ)
      → 0 < k
      → b * k ≤ 2 ^ 53
      → k ≤ 2 ^ 53
      → x ≼ num.of_nat (b * k)
      → x ⊘ num.of_nat k ≼ num.of_nat b
  scaled_high x b k pos small fits h =
      let high = div_mono x (num.of_nat (b * k)) (num.of_nat k) (of_nat_lt 0 k pos fits) h in
      rw (div_exact b k pos small) at high

  pub at_least : (x : R) (n : ℕ) → num.lt x (num.of_nat n) ≡ false → num.of_nat n ≼ x
  at_least x n h = ground (arith, lt-eq-not-le x (num.of_nat n))

  pub at_most : (x : R) (n : ℕ) → num.lt x (num.of_nat n) ≡ true → x ≼ num.of_nat n
  at_most x n h = ground (arith, lt-eq-not-le x (num.of_nat n), le_total x (num.of_nat n))
