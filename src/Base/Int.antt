-- ===== src/Base/Int.antt =====
-- Whole numbers: a type of numbers at which the definitions run in tests, and whose arithmetic
-- meets the laws that the theorems take.
use Prim.Native.Nat.{ℕ, zero, suc, ◌+◌, ◌-◌, ◌*◌, ◌/◌, ◌≤◌, ◌<◌, ◌^◌}
use mathlib.Core.Path.{◌≡◌, ap, ◌∙◌}
use mathlib.Core.Bool.{Bool, true, false, not}
use mathlib.Core.Logic.{◌⊎◌, inl, inr}
use native.Mathlib.Nat.{
  mul-le-mul_left, mul-le-mul_right, mul-div-le, mul-div_left, mul_comm, pow-suc,
}
use native.Mathlib.Omega.{arith}
use nasa_cpp.Base.Tests.{leb, ◌==◌, if◌then◌else◌}
use nasa_cpp.Base.Number.{Number, IsOrdered, IsRounded, ◌≼◌, ◌≺◌, ◌⊗◌, ◌⊘◌}

-- `negsuc n` is -(n + 1).
pub data ℤ : Type 0 where
  pos : ℕ → ℤ
  negsuc : ℕ → ℤ

abbrev pos_part : ℤ → ℕ
pos_part (pos n) = n
pos_part (negsuc n) = 0

abbrev neg_part : ℤ → ℕ
neg_part (pos n) = 0
neg_part (negsuc n) = suc n

abbrev sub_ℕ : ℕ → ℕ → ℤ
sub_ℕ a b = if leb b a then pos (a - b) else negsuc (b - a - 1)

abbrev add_int : ℤ → ℤ → ℤ
add_int a b = sub_ℕ (pos_part a + pos_part b) (neg_part a + neg_part b)

abbrev sub_int : ℤ → ℤ → ℤ
sub_int a b = sub_ℕ (pos_part a + neg_part b) (neg_part a + pos_part b)

abbrev mul_int : ℤ → ℤ → ℤ
mul_int (pos a) (pos b) = pos (a * b)
mul_int (pos a) (negsuc b) = sub_ℕ 0 (a * suc b)
mul_int (negsuc a) (pos b) = sub_ℕ 0 (suc a * b)
mul_int (negsuc a) (negsuc b) = pos (suc a * suc b)

-- Rounds down, for a positive divisor; 0 for any other.
abbrev div_int : ℤ → ℤ → ℤ
div_int (pos a) (pos b) = pos (a / b)
div_int (negsuc a) (pos b) = negsuc (a / b)
div_int a (negsuc b) = pos 0

abbrev le_int : ℤ → ℤ → Bool
le_int a b = leb (pos_part a + neg_part b) (pos_part b + neg_part a)

instance abbrev pub int_number : Number ℤ
int_number = record {
  of_nat = pos;
  decimal = λ m e. pos ((m + 10 ^ e - 1) / 10 ^ e);
  plus = add_int;
  minus = sub_int;
  times = mul_int;
  over = div_int;
  floor = λ x. x;
  round = λ x. x;
  is_integer = λ x. true;
  is_nan = λ x. false;
  lt = λ x y. not (le_int y x);
  le = le_int;
  same = λ x y. pos_part x + neg_part y == pos_part y + neg_part x;
}

pub ℤ-IsOrdered : IsOrdered ℤ
ℤ-IsOrdered = ground arith

pub le_or_gt : (a b : ℕ) → (a ≤ b) ⊎ (b < a)
le_or_gt a b = grind arith

nat_div_mono : (a b z : ℕ) → 0 < z → a ≤ b → a / z ≤ b / z
nat_div_mono a b z h k = elim (le_or_gt (a / z) (b / z)) [
  | inl le ↦ le
  | inr gt ↦
      let stretched : z * (b / z + 1) ≤ z * (a / z) = mul-le-mul_left z (omega arith) in
      absurd (omega (arith, stretched, mul-div-le a z))
]

div_int_mono : (x y z : ℤ) → pos 0 ≺ z → x ≼ y → x ⊘ z ≼ y ⊘ z
div_int_mono (pos a) (pos b) (pos z) h k = ground (arith, nat_div_mono a b z)
div_int_mono (pos a) (negsuc b) (pos z) h k = ground arith
div_int_mono (negsuc a) (pos b) (pos z) h k = ground arith
div_int_mono (negsuc a) (negsuc b) (pos z) h k = ground (arith, nat_div_mono b a z)
div_int_mono x y (negsuc z) h k = ground arith

mul_int_comm : (x y : ℤ) → x ⊗ y ≡ y ⊗ x
mul_int_comm (pos a) (pos b) = ap pos (mul_comm a b)
mul_int_comm (pos a) (negsuc b) = ap (sub_ℕ 0) (mul_comm a (suc b))
mul_int_comm (negsuc a) (pos b) = ap (sub_ℕ 0) (mul_comm (suc a) b)
mul_int_comm (negsuc a) (negsuc b) = ap pos (mul_comm (suc a) (suc b))

mul_int_mono : (x y z : ℤ) → pos 0 ≼ z → x ≼ y → x ⊗ z ≼ y ⊗ z
mul_int_mono (pos a) (pos b) (pos z) h k = ground (arith, mul-le-mul_right {m = a} {n = b} z)
mul_int_mono (pos a) (negsuc b) (pos z) h k = ground arith
mul_int_mono (negsuc a) (pos b) (pos z) h k = ground arith
mul_int_mono (negsuc a) (negsuc b) (pos z) h k = ground (arith, mul-le-mul_right {m = b} {n = a} z)
mul_int_mono x y (negsuc z) h k = ground arith

mul_int_anti : (x y z : ℤ) → z ≼ pos 0 → x ≼ y → y ⊗ z ≼ x ⊗ z
mul_int_anti (pos a) (pos b) (negsuc z) h k =
    ground (arith, mul-le-mul_right {m = a} {n = b} (suc z))
mul_int_anti (pos a) (negsuc b) (negsuc z) h k = ground arith
mul_int_anti (negsuc a) (pos b) (negsuc z) h k = ground arith
mul_int_anti (negsuc a) (negsuc b) (negsuc z) h k =
    ground (arith, mul-le-mul_right {m = suc b} {n = suc a} (suc z))
mul_int_anti x y (pos (suc z)) h k = ground arith
mul_int_anti (pos a) (pos b) (pos zero) h k = grind arith
mul_int_anti (pos a) (negsuc b) (pos zero) h k = grind arith
mul_int_anti (negsuc a) (pos b) (pos zero) h k = grind arith
mul_int_anti (negsuc a) (negsuc b) (pos zero) h k = grind arith

div_int_self : (x : ℤ) → pos 0 ≺ x → x ⊘ x ≡ pos 1
div_int_self (pos zero) h = ground arith
div_int_self (pos (suc a)) h =
    ap pos (ap (λ t. t / suc a) (omega arith) ∙ mul-div_left 1 (omega arith))
div_int_self (negsuc a) h = ground arith

div_int_exact : (a b : ℕ) → 0 < b → a * b ≤ 2 ^ 53 → pos (a * b) ⊘ pos b ≡ pos a
div_int_exact a b h k = ap pos (mul-div_left a h)

ceil-le : (m k p : ℕ) → 0 < p → m ≤ k * p → (m + p - 1) / p ≤ k
ceil-le m k p h le = elim (le_or_gt ((m + p - 1) / p) k) [
  | inl small ↦ small
  | inr large ↦
      let stretched : p * (k + 1) ≤ p * ((m + p - 1) / p) = mul-le-mul_left p (omega arith) in
      absurd (omega (arith, stretched, mul-div-le (m + p - 1) p, mul_comm k p))
]

pow_pos : (e : ℕ) → 0 < 10 ^ e
pow_pos zero = omega arith
pow_pos (suc e) = let p = pow_pos e in rw (pow-suc 10 e) (omega arith)

decimal_int-le : (m e k : ℕ) → m ≤ k * 10 ^ e → pos ((m + 10 ^ e - 1) / 10 ^ e) ≼ pos k
decimal_int-le m e k h = ground (arith, ceil-le m k (10 ^ e) (pow_pos e) h)

pub ℤ-IsRounded : IsRounded ℤ
ℤ-IsRounded = record {
  ordered = ℤ-IsOrdered;
  of_nat_mono = ground arith;
  of_nat_lt = λ a b h k. ground arith;
  decimal_nonneg = ground arith;
  decimal-le = decimal_int-le;
  add_comm = ground arith;
  add_mono = ground arith;
  add_zero = ground arith;
  add_of_sub = ground arith;
  sub_mono = ground arith;
  sub_anti = ground arith;
  sub_zero = ground arith;
  sub_self = ground arith;
  sub_pos = ground arith;
  mul_comm = mul_int_comm;
  mul_mono = mul_int_mono;
  mul_anti = mul_int_anti;
  zero_mul = ground arith;
  one_mul = ground arith;
  div_mono = div_int_mono;
  div_exact = div_int_exact;
  floor-le = ground arith;
  le-floor = ground arith;
  zero_div = grind arith;
  div_self = div_int_self;
}
