-- ===== src/Views/Energy.antt =====
-- web/nasa_web/static/js/views/energy.js: the rows of the table, and the totals.
pub mod Periods
pub mod Summary
use nasa_cpp.Base.{
  ℕ, suc, ◌+◌, not, Option, none, some, List, [], ◌∷◌, arith, length, get_elem?, is_null, or_else,
  if◌then◌else◌, All, All-map, filter, foldl, max,
}
use nasa_cpp.Base.Number.{Number, IsRounded, ◌⊕◌, ◌⊖◌, ◌⊘◌, ◌≼◌, max_num}

pub record Row (R : Type 0) : Type 0 where
  pub used : Option R
  pub made : Option R
  pub cop : Option R

module _ {R : Type 0} ⦃num : Number R⦄ where
  -- `arr[i]` of an array that may hold nulls
  abbrev pub at : List (Option R) → ℕ → Option R
  at arr i = elim (get_elem? arr i) [ none ↦ none | some v ↦ v ]

  abbrev pub growth : Option R → Option R → Option R
  growth (some a) (some b) = some (max_num (num.of_nat 0) (b ⊖ a))
  growth _ _ = none

  -- `delta(arr, i)`
  unfoldable pub delta : List (Option R) → ℕ → Option R
  delta arr i = growth (at arr i) (at arr (i + 1))

  -- `used ? made / used : null`; in a division `null` counts as 0
  unfoldable pub row_cop : Option R → Option R → Option R
  row_cop none made = none
  row_cop (some used) made =
      if num.same used (num.of_nat 0) then none else some (or_else made (num.of_nat 0) ⊘ used)

  unfoldable pub row : List (Option R) → List (Option R) → ℕ → Row R
  unfolding delta row_cop
  row vi vo i = record {
    used = delta vi i;
    made = delta vo i;
    cop = row_cop (delta vi i) (delta vo i);
  }

  -- `starts.map((d, i) => …)`, from index `i` on, for `k` periods
  unfoldable pub rows_from : List (Option R) → List (Option R) → ℕ → ℕ → List (Row R)
  rows_from vi vo i ℕ.zero = []
  rows_from vi vo i (suc k) = row vi vo i ∷ rows_from vi vo (i + 1) k

  -- `rows.reduce((a, r) => a + (r.used || 0), 0)`, and the same for `made`
  unfoldable pub total : (Row R → Option R) → List (Row R) → R
  total field rows = foldl (λ a r. a ⊕ or_else (field r) (num.of_nat 0)) (num.of_nat 0) rows

  unfoldable pub average_cop : List (Row R) → Option R
  unfolding total
  average_cop rows =
      let used = total (λ r. r.used) rows in
      if num.same used (num.of_nat 0) then none else some (total (λ r. r.made) rows ⊘ used)

  -- `Math.max(1, rows.filter((r) => r.used != null).length)`
  unfoldable pub with_data : List (Row R) → ℕ
  with_data rows = max 1 (length (filter (λ r. not (is_null r.used)) rows))

  abbrev pub NonNeg : Option R → Type 0
  NonNeg none = Unit
  NonNeg (some x) = num.of_nat 0 ≼ x

  module _ (laws : IsRounded R) where
    open laws use {ordered, add_mono, add_zero, of_nat_mono}
    open ordered use {le_refl, le_trans, le_total, lt-eq-not-le}

    pub growth_nonneg : (a b : Option R) → NonNeg (growth a b)
    growth_nonneg none b = tt
    growth_nonneg (some a) none = tt
    growth_nonneg (some a) (some b) = ground (
      arith,
      le_refl (num.of_nat 0),
      lt-eq-not-le (num.of_nat 0) (b ⊖ a),
      le_total (num.of_nat 0) (b ⊖ a),
    )

    or_else_nonneg : (o : Option R) → NonNeg o → num.of_nat 0 ≼ or_else o (num.of_nat 0)
    or_else_nonneg none h = le_refl (num.of_nat 0)
    or_else_nonneg (some x) h = h

    -- The running sum of `reduce` never falls.
    sum-le :
        (field : Row R → Option R) (acc : R) (rows : List (Row R))
        → All (λ r. NonNeg (field r)) rows
        → acc ≼ foldl (λ a r. a ⊕ or_else (field r) (num.of_nat 0)) acc rows
    sum-le field acc [] h = le_refl acc
    sum-le field acc (r ∷ rows) (p, h) =
        let x = or_else (field r) (num.of_nat 0) in
        let step = add_mono acc (num.of_nat 0) x (or_else_nonneg (field r) p) in
        let up : acc ≼ acc ⊕ x = rw (add_zero acc) at step in
        le_trans acc (acc ⊕ x) _ up (sum-le field (acc ⊕ x) rows h)

    rows_from_nonneg :
        (vi vo : List (Option R)) (i k : ℕ)
        → All (λ (r : Row R). NonNeg r.used) (rows_from vi vo i k)
          × All (λ (r : Row R). NonNeg r.made) (rows_from vi vo i k)
    unfolding rows_from row
    rows_from_nonneg vi vo i ℕ.zero = (tt, tt)
    rows_from_nonneg vi vo i (suc k) =
        let (us, ms) = rows_from_nonneg vi vo (i + 1) k in
        (
          (growth_nonneg (at vi i) (at vi (i + 1)), us),
          (growth_nonneg (at vo i) (at vo (i + 1)), ms),
        )

    -- Whatever the counters read, also where one was reset, the energy used and the energy made add
    -- up to no less than nothing, in every period and in total.
    totals_nonneg :
        (vi vo : List (Option R)) (k : ℕ)
        → let rows = rows_from vi vo 0 k in
          (num.of_nat 0 ≼ total (λ r. r.used) rows)
          × (num.of_nat 0 ≼ total (λ r. r.made) rows)
          × All (λ (r : Row R). num.of_nat 0 ≼ or_else r.used (num.of_nat 0)) rows
    unfolding total
    totals_nonneg vi vo k =
        let (us, ms) = rows_from_nonneg vi vo 0 k in
        (
          sum-le (λ r. r.used) (num.of_nat 0) (rows_from vi vo 0 k) us,
          sum-le (λ r. r.made) (num.of_nat 0) (rows_from vi vo 0 k) ms,
          All-map (λ (r : Row R). NonNeg r.used)
              (λ (r : Row R). num.of_nat 0 ≼ or_else r.used (num.of_nat 0))
              (λ r h. or_else_nonneg r.used h) (rows_from vi vo 0 k) us,
        )
