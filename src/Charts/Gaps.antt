-- ===== src/Charts/Gaps.antt =====
-- `withGaps` of web/nasa_web/static/js/charts.js: a null row in every long pause.
pub mod Laws
use nasa_cpp.Base.{
  ℕ, suc, ◌+◌, ◌-◌, ◌/◌, Bool, Option, none, some, List, [], ◌∷◌, length, get_elem?, ltb,
  if◌then◌else◌,
}
use nasa_cpp.Base.Number.{Number, ◌⊕◌, ◌⊖◌, ◌⊗◌, max_num}

module _ {R : Type 0} ⦃num : Number R⦄ where
  -- `steps`: the differences of neighbours
  abbrev pub steps_from : R → List R → List R
  steps_from p [] = []
  steps_from p (t ∷ ts) = (t ⊖ p) ∷ steps_from t ts

  abbrev pub insert_sorted : R → List R → List R
  insert_sorted x [] = x ∷ []
  insert_sorted x (y ∷ ys) = if num.le x y then x ∷ y ∷ ys else y ∷ insert_sorted x ys

  -- `[...steps].sort((a, b) => a - b)`
  abbrev pub sort_num : List R → List R
  sort_num [] = []
  sort_num (x ∷ xs) = insert_sorted x (sort_num xs)

  -- `sorted[Math.floor(sorted.length / 2)] || 60`
  abbrev pub median_step : List R → R
  median_step steps = elim (get_elem? (sort_num steps) (length steps / 2)) [
    | none ↦ num.of_nat 60
    | some m ↦ if num.same m (num.of_nat 0) then num.of_nat 60 else m
  ]

  unfoldable pub gap_limit : R → List R → R → R
  gap_limit t0 ts min_gap = max_num min_gap (median_step (steps_from t0 ts) ⊗ num.of_nat 4)

  -- `v[i]` and the rest, where `v` may be shorter
  abbrev pub first_value : List (Option R) → Option R
  first_value [] = none
  first_value (v ∷ vs) = v

  abbrev pub other_values : List (Option R) → List (Option R)
  other_values [] = []
  other_values (v ∷ vs) = vs

  -- The rows of the loop, after the sample at `p`; `ot` and `ov` grow together.
  unfoldable pub gap_rows : R → R → List R → List (Option R) → List (R × Option R)
  gap_rows limit p [] vs = []
  gap_rows limit p (t ∷ ts) vs =
      let rows = (t, first_value vs) ∷ gap_rows limit t ts (other_values vs) in
      if num.lt limit (t ⊖ p) then (p ⊕ num.of_nat 1, none) ∷ rows else rows

  abbrev pub pair_up : List R → List (Option R) → List (R × Option R)
  pair_up [] vs = []
  pair_up (t ∷ ts) vs = (t, first_value vs) ∷ pair_up ts (other_values vs)

  -- `withGaps(t, v, minGap)`, as rows
  unfoldable pub with_gaps : List R → List (Option R) → R → List (R × Option R)
  unfolding gap_limit gap_rows
  with_gaps [] vs min_gap = []
  with_gaps (t ∷ ts) vs min_gap =
      if ltb (length (t ∷ ts)) 3
      then pair_up (t ∷ ts) vs
      else (t, first_value vs) ∷ gap_rows (gap_limit t ts min_gap) t ts (other_values vs)
