-- ===== src/Drawer/Shares.antt =====
-- The figures above the chart that `load` of web/nasa_web/static/js/drawer.js shows: of a number, and the
-- shares of time of the most frequent states.
pub mod Bounds
use nasa_cpp.Base.{
  ℕ, zero, suc, ◌≤◌, ◌≡◌, refl, sym, ◌∙◌, inl, inr, Bool, true, false, not, Option, none, some,
  List, [], ◌∷◌, map, foldl, String, JsMap, lookup, insert, insert-All, lookup-All, take, take-All,
  length-take, length-map, length, or_else, str_eq, if◌then◌else◌, All, All-map, Option-cases,
  Bool-cases, arith,
}
use nasa_cpp.Base.Number.{Number, IsRounded, ◌⊕◌, ◌⊖◌, ◌⊗◌, ◌⊘◌, ◌≼◌, ◌≺◌}
use nasa_cpp.Base.Sorting.{sort_by, IsSortedBy, sort_by-All, sort_by-IsSortedBy}
use nasa_cpp.Entity.{Entity}
use nasa_cpp.Format.Units.{decimals_for}
use nasa_cpp.Charts.Sparkline.{points, least, greatest}
use nasa_cpp.Drawer.Figures.{stays, add_stay, add_stays, state_totals, or_zero}

-- A figure: its name, its number before it is printed, and the number of decimals.
pub record Figure (R : Type 0) : Type 0 where
  pub key : String
  pub number : Option R
  pub decimals : ℕ
  pub unit : Option String

-- A series of a number: `v`, `min` and `max`, and how many samples there are.
pub record NumberSeries (R : Type 0) : Type 0 where
  pub values : List (Option R)
  pub mins : List (Option R)
  pub maxs : List (Option R)
  pub samples : ℕ

-- `e.state_class === "total_increasing"`
abbrev is_total : Option String → Bool
is_total none = false
is_total (some c) = str_eq c "total_increasing"

module _ {R : Type 0} ⦃num : Number R⦄ where
  abbrev first_of : List R → Option R
  first_of [] = none
  first_of (v ∷ vs) = some v

  abbrev last_of : List R → Option R
  last_of [] = none
  last_of (v ∷ []) = some v
  last_of (v ∷ w ∷ vs) = last_of (w ∷ vs)

  abbrev least_of : List R → Option R
  least_of [] = none
  least_of (v ∷ vs) = some (least v vs)

  abbrev greatest_of : List R → Option R
  greatest_of [] = none
  greatest_of (v ∷ vs) = some (greatest v vs)

  abbrev difference_of : Option R → Option R → Option R
  difference_of (some a) (some b) = some (b ⊖ a)
  difference_of _ _ = none

  -- `values.length ? values.reduce((a, b) => a + b, 0) / values.length : null`
  abbrev average : List R → Option R
  average [] = none
  average (v ∷ vs) =
      some (foldl (λ a b. a ⊕ b) (num.of_nat 0) (v ∷ vs) ⊘ num.of_nat (length (v ∷ vs)))

  abbrev figure : Entity R → ℕ → String → Option R → Figure R
  figure e d key number = record { key = key; number = number; decimals = d; unit = e.unit }

  abbrev count_figure : String → ℕ → Figure R
  count_figure key n = record { key = key; number = some (num.of_nat n); decimals = 0; unit = none }

  unfoldable pub number_figures : Entity R → NumberSeries R → List (Figure R)
  number_figures e s =
      let values = points s.values in
      let d = decimals_for e.unit (first_of values) in
      if is_total e.state_class
      then figure e d "Change" (difference_of (first_of values) (last_of values))
        ∷ figure e d "Start" (first_of values)
        ∷ figure e d "End" (last_of values)
        ∷ count_figure "Samples" s.samples
        ∷ []
      else figure e d "Min" (least_of (points s.mins))
        ∷ figure e d "Avg" (average values)
        ∷ figure e d "Max" (greatest_of (points s.maxs))
        ∷ count_figure "Points" s.samples
        ∷ []

  -- `(a, b) => b[1] - a[1]` is not positive
  abbrev pub longer_first : String × R → String × R → Bool
  longer_first a b = not (num.lt (num.of_nat 0) (b.1 ⊖ a.1))

  -- `[...totals.values()].reduce((a, b) => a + b, 0) || 1`
  unfoldable pub whole : JsMap R → R
  whole totals =
      let sum = foldl (λ a (t : String × R). a ⊕ t.1) (num.of_nat 0) totals in
      if num.same sum (num.of_nat 0) then num.of_nat 1 else sum

  -- The states shown, the longest first, each with its share in per cent.
  unfoldable pub shares : JsMap R → List (String × R)
  unfolding whole
  shares totals =
      map (λ (t : String × R). (t.0, t.1 ⊘ whole totals ⊗ num.of_nat 100))
        (take 4 (sort_by longer_first totals))
