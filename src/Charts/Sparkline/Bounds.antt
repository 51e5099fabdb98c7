-- ===== src/Charts/Sparkline/Bounds.antt =====
-- Where a sparkline is drawn (`sparkline` of web/nasa_web/static/js/charts.js).
use nasa_cpp.Base.{
  ℕ, suc, ◌+◌, ◌-◌, ◌≤◌, ◌<◌, ◌^◌, ◌≡◌, refl, ap, All-map, Bool, true, false, Option, none, some,
  List, [], ◌∷◌, All, arith, length, ltb, inl, inr, Bool-cases,
}
use nasa_cpp.Base.Number.{Number, IsRounded, ◌⊕◌, ◌⊖◌, ◌⊗◌, ◌⊘◌, ◌≼◌, ◌≺◌, max_num, min_num}
use nasa_cpp.Base.Extremes.{le_max_left, le_max_right, min_le_left, min_le_right}
use nasa_cpp.Charts.Sparkline.{
  Command, move, line, points, least, greatest, widened, y_of, commands_from, range_of, sparkline,
}

module _ {R : Type 0} ⦃num : Number R⦄ where
  -- A point lies in a picture: its left edge is at 0.
  abbrev pub IsInside : R → R → R → R → R → Type 0
  IsInside right top bottom x y = (num.of_nat 0 ≼ x) × (x ≼ right) × (top ≼ y) × (y ≼ bottom)

  abbrev pub Within : R → R → R → Command R → Type 0
  Within right top bottom (move x y) = IsInside right top bottom x y
  Within right top bottom (line x y) = IsInside right top bottom x y

  -- Where the last of some values is drawn: `width` divided among the steps and put together again.
  abbrev pub right_edge : List (Option R) → R → R
  right_edge values width =
      num.of_nat (length values - 1) ⊗ (width ⊘ num.of_nat (length values - 1))

  -- How many lines are drawn, ...
  abbrev pub lines : List (Command R) → ℕ
  lines [] = 0
  lines (move x y ∷ cs) = lines cs
  lines (line x y ∷ cs) = suc (lines cs)

  -- ... and how many values are known with the one before.
  abbrev pub joints : Bool → List (Option R) → ℕ
  joints known [] = 0
  joints known (none ∷ vs) = joints false vs
  joints true (some v ∷ vs) = suc (joints true vs)
  joints false (some v ∷ vs) = joints true vs

  joints-le :
      (vs : List (Option R))
      → (joints true vs ≤ length (points vs)) × (joints false vs ≤ length (points vs) - 1)
  joints-le [] = (omega arith, omega arith)
  joints-le (none ∷ vs) = (omega (arith, (joints-le vs).1), omega (arith, (joints-le vs).1))
  joints-le (some v ∷ vs) = (omega (arith, (joints-le vs).0), omega (arith, (joints-le vs).0))

  commands_from-lines :
      (step height : R) (range : R × R) (started : Bool) (i : ℕ) (vs : List (Option R))
      → lines (commands_from step height range started i vs) ≡ joints started vs
  unfolding commands_from
  commands_from-lines step height range started i [] = refl
  commands_from-lines step height range started i (none ∷ vs) =
      commands_from-lines step height range false (i + 1) vs
  commands_from-lines step height range true i (some v ∷ vs) =
      ap suc (commands_from-lines step height range true (i + 1) vs)
  commands_from-lines step height range false i (some v ∷ vs) =
      commands_from-lines step height range true (i + 1) vs

  module _ (laws : IsRounded R) where
    open laws use {
      ordered, sub_mono, sub_anti, sub_self, sub_pos, sub_zero, mul_mono, zero_mul, one_mul,
      div_mono, zero_div, div_self, add_mono, add_zero, of_nat_mono, of_nat_lt,
    }
    open ordered use {le_refl, le_trans, le_total, lt-eq-not-le}

    y_of_bounds :
        (height lo hi v : R)
        → lo ≺ hi
        → lo ≼ v
        → v ≼ hi
        → num.of_nat 8 ≼ height
        → (height ⊖ num.of_nat 3 ⊖ (height ⊖ num.of_nat 8) ≼ y_of height (lo, hi) v)
          × (y_of height (lo, hi) v ≼ height ⊖ num.of_nat 3)
    y_of_bounds height lo hi v lt above below tall =
        let d = hi ⊖ lo in
        let q = (v ⊖ lo) ⊘ d in
        let h = height ⊖ num.of_nat 8 in
        let zero : R = num.of_nat 0 in
        let pos : zero ≺ d = sub_pos lo hi lt in
        let base = sub_mono lo v lo above in
        let base' : zero ≼ v ⊖ lo = rw (sub_self lo) at base in
        let low : zero ≼ q = rw (zero_div d pos) at (div_mono zero (v ⊖ lo) d pos base') in
        let high : q ≼ num.of_nat 1 =
          rw (div_self d pos) at (div_mono (v ⊖ lo) d d pos (sub_mono v hi lo below)) in
        let room = sub_mono (num.of_nat 8) height (num.of_nat 8) tall in
        let room' : zero ≼ h = rw (sub_self (num.of_nat 8)) at room in
        let up : zero ≼ q ⊗ h = rw (zero_mul h) at (mul_mono zero q h room' low) in
        let down : q ⊗ h ≼ h = rw (one_mul h) at (mul_mono q (num.of_nat 1) h room' high) in
        (
          sub_anti (height ⊖ num.of_nat 3) (q ⊗ h) h down,
          rw (sub_zero (height ⊖ num.of_nat 3)) at
              (sub_anti (height ⊖ num.of_nat 3) zero (q ⊗ h) up),
        )

    -- A value of a series lies in the range.
    abbrev InRange : R × R → R → Type 0
    InRange (lo, hi) v = (lo ≼ v) × (v ≼ hi)

    extremes_lem : (v : R) (vs : List R) → All (InRange (least v vs, greatest v vs)) (v ∷ vs)
    extremes_lem v [] = ((le_refl v, le_refl v), tt)
    extremes_lem v (w ∷ ws) =
        let lo = least w ws in
        let hi = greatest w ws in
        (
          (min_le_left ordered v lo, le_max_left ordered v hi),
          All-map (InRange (lo, hi)) (InRange (min_num v lo, max_num v hi))
              (λ x k. (
                le_trans (min_num v lo) lo x (min_le_right ordered v lo) k.0,
                le_trans x hi (max_num v hi) k.1 (le_max_right ordered v hi),
              ))
              (w ∷ ws) (extremes_lem w ws),
        )

    widened_lem : (lo hi v : R) → InRange (lo, hi) v → InRange (widened lo hi) v
    widened_lem lo hi v (above, below) = elim (Bool-cases (num.lt (hi ⊖ lo) (num.decimal 1 9))) [
      | inr wide ↦ rw wide (above, below)
      | inl flat ↦
          let one = of_nat_mono 0 1 (omega arith) in
          let less : lo ⊖ num.of_nat 1 ≼ lo =
            rw (sub_zero lo) at (sub_anti lo (num.of_nat 0) (num.of_nat 1) one) in
          let more : hi ≼ hi ⊕ num.of_nat 1 =
            rw (add_zero hi) at (add_mono hi (num.of_nat 0) (num.of_nat 1) one) in
          rw flat (
            le_trans (lo ⊖ num.of_nat 1) lo v less above,
            le_trans v hi (hi ⊕ num.of_nat 1) below more,
          )
    ]

    range_of_lem : (vs : List R) → All (InRange (range_of vs)) vs
    range_of_lem [] = tt
    range_of_lem (v ∷ vs) =
        All-map (InRange (least v vs, greatest v vs)) (InRange (range_of (v ∷ vs)))
          (widened_lem (least v vs) (greatest v vs)) (v ∷ vs) (extremes_lem v vs)

    x_bounds :
        (step : R) (i n : ℕ)
        → num.of_nat 0 ≼ step
        → i ≤ n
        → (num.of_nat 0 ≼ num.of_nat i ⊗ step) × (num.of_nat i ⊗ step ≼ num.of_nat n ⊗ step)
    x_bounds step i n forward le =
        let low =
          mul_mono (num.of_nat 0) (num.of_nat i) step forward (of_nat_mono 0 i (omega arith)) in
        (
          rw (zero_mul step) at low,
          mul_mono (num.of_nat i) (num.of_nat n) step forward (of_nat_mono i n le),
        )

    commands_from-Within :
        (step height : R) (range : R × R) (started : Bool) (i n : ℕ) (vs : List (Option R))
        → range.0 ≺ range.1
        → num.of_nat 8 ≼ height
        → num.of_nat 0 ≼ step
        → i + length vs ≤ suc n
        → All (InRange range) (points vs)
        → All
            (Within
              (num.of_nat n ⊗ step)
              (height ⊖ num.of_nat 3 ⊖ (height ⊖ num.of_nat 8))
              (height ⊖ num.of_nat 3))
            (commands_from step height range started i vs)
    unfolding commands_from
    commands_from-Within step height range started i n [] lt tall forward fits h = tt
    commands_from-Within step height range started i n (none ∷ vs) lt tall forward fits h =
        commands_from-Within step height range false (i + 1) n vs lt tall forward (omega arith) h
    commands_from-Within step height (lo, hi) true i n (some v ∷ vs) lt tall forward fits
          ((a, b), h) =
        let (left, right) = x_bounds step i n forward (omega arith) in
        let (up, down) = y_of_bounds height lo hi v lt a b tall in
        (
          (left, right, up, down),
          commands_from-Within step height (lo, hi) true (i + 1) n vs lt tall forward (omega arith)
              h,
        )
    commands_from-Within step height (lo, hi) false i n (some v ∷ vs) lt tall forward fits
          ((a, b), h) =
        let (left, right) = x_bounds step i n forward (omega arith) in
        let (up, down) = y_of_bounds height lo hi v lt a b tall in
        (
          (left, right, up, down),
          commands_from-Within step height (lo, hi) true (i + 1) n vs lt tall forward (omega arith)
              h,
        )

    points-le : (vs : List (Option R)) → length (points vs) ≤ length vs
    points-le [] = omega arith
    points-le (none ∷ vs) = omega (arith, points-le vs)
    points-le (some v ∷ vs) = omega (arith, points-le vs)

    step_forward :
        (width : R) (n : ℕ)
        → 0 < n
        → n ≤ 2 ^ 53
        → num.of_nat 0 ≼ width
        → num.of_nat 0 ≼ width ⊘ num.of_nat n
    step_forward width n some_step few wide =
        let pos = of_nat_lt 0 n some_step few in
        rw (zero_div (num.of_nat n) pos) at (div_mono (num.of_nat 0) width (num.of_nat n) pos wide)

    -- Where the two values between which the line is drawn differ, and the picture is 8 high or more and
    -- 0 wide or more, a sparkline stays in the picture, from 0 to the place of the last value, which is
    -- the width divided by the number of steps and multiplied by it again, and from 3 above the lower
    -- edge `height - 8` upwards. It has as many lines as there are known values next to a known value
    -- before them, so that no line bridges an unknown one.
    pub sparkline-Within :
        (values : List (Option R)) (width height : R)
        → (range_of (points values)).0 ≺ (range_of (points values)).1
        → num.of_nat 8 ≼ height
        → num.of_nat 0 ≼ width
        → length values ≤ 2 ^ 53
        → All
            (Within
              (right_edge values width)
              (height ⊖ num.of_nat 3 ⊖ (height ⊖ num.of_nat 8))
              (height ⊖ num.of_nat 3))
            (sparkline values width height)
          × (lines (sparkline values width height) ≡ joints false values)
    unfolding sparkline
    sparkline-Within values width height lt tall wide count =
        let n = length values - 1 in
        let step = width ⊘ num.of_nat n in
        let range = range_of (points values) in
        let joined = commands_from-lines step height range false 0 values in
        elim (Bool-cases (ltb (length (points values)) 2)) [
          | inl few ↦ rw few (tt, ground (arith, joints-le values))
          | inr enough ↦
              let two : 2 ≤ length values = ground (arith, points-le values) in
              let drawn =
                commands_from-Within step height range false 0 n values lt tall
                  (step_forward width n (omega arith) (omega arith) wide) (omega arith)
                  (range_of_lem (points values)) in
              rw enough (drawn, joined)
        ]
