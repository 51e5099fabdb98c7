-- ===== src/Charts/Sparkline.antt =====
-- `sparkline` of web/nasa_web/static/js/charts.js: the commands of its path.
pub mod Bounds
use nasa_cpp.Base.{
  ℕ, suc, ◌+◌, ◌-◌, ◌≤◌, ◌≡◌, refl, ap, All-map, Bool, true, false, Option, none, some, List, [],
  ◌∷◌, All, arith, length, ltb, if◌then◌else◌, inl, inr, Bool-cases,
}
use nasa_cpp.Base.Number.{Number, IsRounded, ◌⊕◌, ◌⊖◌, ◌⊗◌, ◌⊘◌, ◌≼◌, ◌≺◌, max_num, min_num}
use nasa_cpp.Base.Extremes.{le_max_left, le_max_right, min_le_left, min_le_right}

-- `M` and `L`, with the coordinates before they are printed.
pub data Command (R : Type 0) : Type 0 where
  move line : R → R → Command R

module _ {R : Type 0} ⦃num : Number R⦄ where
  -- `values.filter((v) => v != null)`
  abbrev pub points : List (Option R) → List R
  points [] = []
  points (none ∷ vs) = points vs
  points (some v ∷ vs) = v ∷ points vs

  -- `Math.min(...pts)` and `Math.max(...pts)`, of one number or more
  abbrev pub least : R → List R → R
  least v [] = v
  least v (w ∷ ws) = min_num v (least w ws)

  abbrev pub greatest : R → List R → R
  greatest v [] = v
  greatest v (w ∷ ws) = max_num v (greatest w ws)

  -- `if (max - min < 1e-9) { max += 1; min -= 1; }`
  abbrev pub widened : R → R → R × R
  widened lo hi =
      if num.lt (hi ⊖ lo) (num.decimal 1 9)
      then (lo ⊖ num.of_nat 1, hi ⊕ num.of_nat 1)
      else (lo, hi)

  -- `height - 3 - ((v - min) / (max - min)) * (height - 8)`
  abbrev pub y_of : R → R × R → R → R
  y_of height (lo, hi) v = height ⊖ num.of_nat 3 ⊖ (v ⊖ lo) ⊘ (hi ⊖ lo) ⊗ (height ⊖ num.of_nat 8)

  -- The loop, from index `i` on.
  unfoldable pub commands_from : R → R → R × R → Bool → ℕ → List (Option R) → List (Command R)
  commands_from step height range started i [] = []
  commands_from step height range started i (none ∷ vs) =
      commands_from step height range false (i + 1) vs
  commands_from step height range started i (some v ∷ vs) =
      let x = num.of_nat i ⊗ step in
      let y = y_of height range v in
      (if started then line x y else move x y) ∷ commands_from step height range true (i + 1) vs

  -- The two values between which the line is drawn.
  abbrev pub range_of : List R → R × R
  range_of [] = (num.of_nat 0, num.of_nat 0)
  range_of (v ∷ vs) = widened (least v vs) (greatest v vs)

  -- `d`; nothing is drawn with fewer than two points.
  unfoldable pub sparkline : List (Option R) → R → R → List (Command R)
  unfolding commands_from
  sparkline values width height =
      let step = width ⊘ num.of_nat (length values - 1) in
      if ltb (length (points values)) 2
      then []
      else commands_from step height (range_of (points values)) false 0 values
