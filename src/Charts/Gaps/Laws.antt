-- ===== src/Charts/Gaps/Laws.antt =====
-- The null rows of `withGaps` (web/nasa_web/static/js/charts.js).
use nasa_cpp.Base.{
  ℕ, suc, ◌≡◌, refl, inl, inr, false, Option, none, some, List, [], ◌∷◌, length, arith, ltb,
  Bool-cases,
}
use nasa_cpp.Base.Number.{Number, IsRounded, ◌⊕◌, ◌⊖◌, ◌⊗◌, ◌≼◌, ◌≺◌}
use nasa_cpp.Charts.Gaps.{
  gap_limit, gap_rows, with_gaps, first_value, other_values, pair_up, median_step, steps_from,
}

ltb_three : (n : ℕ) → ltb (suc (suc (suc n))) 3 ≡ false
ltb_three n = ground arith

module _ {R : Type 0} ⦃num : Number R⦄ where
  -- Two rows in a row that are both drawn are at most `limit` apart.
  abbrev Near : R → R × Option R → R × Option R → Type 0
  Near limit (t, none) (u, w) = Unit
  Near limit (t, some v) (u, none) = Unit
  Near limit (t, some v) (u, some w) = num.lt limit (u ⊖ t) ≡ false

  abbrev pub NoBridge : R → R × Option R → List (R × Option R) → Type 0
  NoBridge limit r [] = Unit
  NoBridge limit r (s ∷ rows) = Near limit r s × NoBridge limit s rows

  Near-none_left : (limit p : R) (s : R × Option R) → Near limit (p, none) s
  Near-none_left limit p s = tt

  Near-none_right : (limit p q : R) (v : Option R) → Near limit (p, v) (q, none)
  Near-none_right limit p q none = tt
  Near-none_right limit p q (some v) = tt

  Near-of_not_lt :
      (limit p t : R) (v w : Option R) → num.lt limit (t ⊖ p) ≡ false → Near limit (p, v) (t, w)
  Near-of_not_lt limit p t none w h = tt
  Near-of_not_lt limit p t (some v) none h = tt
  Near-of_not_lt limit p t (some v) (some w) h = h

  gap_rows-NoBridge :
      (limit p : R) (v : Option R) (ts : List R) (vs : List (Option R))
      → NoBridge limit (p, v) (gap_rows limit p ts vs)
  unfolding gap_rows
  gap_rows-NoBridge limit p v [] vs = tt
  gap_rows-NoBridge limit p v (t ∷ ts) vs = elim (Bool-cases (num.lt limit (t ⊖ p))) [
    | inl far ↦ rw far (
      Near-none_right limit p (p ⊕ num.of_nat 1) v,
      (
        Near-none_left limit (p ⊕ num.of_nat 1) (t, first_value vs),
        gap_rows-NoBridge limit t (first_value vs) ts (other_values vs),
      ),
    )
    | inr near ↦ rw near (
      Near-of_not_lt limit p t v (first_value vs) near,
      gap_rows-NoBridge limit t (first_value vs) ts (other_values vs),
    )
  ]

  -- `Inserted limit p xs ys`: after a sample at `p`, `ys` is `xs` with a row without a value one second
  -- after each sample that is followed by a pause longer than `limit`, and with no other row.
  pub data Inserted (limit : R) : R → List (R × Option R) → List (R × Option R) → Type 0 where
    done : {p : R} → Inserted limit p [] []
    keep :
        {p t : R} {v : Option R} {xs ys : List (R × Option R)}
        → num.lt limit (t ⊖ p) ≡ false
        → Inserted limit t xs ys
        → Inserted limit p ((t, v) ∷ xs) ((t, v) ∷ ys)
    pause :
        {p t : R} {v : Option R} {xs ys : List (R × Option R)}
        → limit ≺ t ⊖ p
        → Inserted limit t xs ys
        → Inserted limit p ((t, v) ∷ xs) ((p ⊕ num.of_nat 1, none) ∷ (t, v) ∷ ys)

  abbrev pub Rises : R → List (R × Option R) → Type 0
  Rises p [] = Unit
  Rises p ((t, v) ∷ rows) = (p ≼ t) × Rises t rows

  abbrev pub IsSorted : R → List R → Type 0
  IsSorted p [] = Unit
  IsSorted p (t ∷ ts) = (p ≼ t) × IsSorted t ts

  gap_rows-Inserted :
      (limit p : R) (ts : List R) (vs : List (Option R))
      → Inserted limit p (pair_up ts vs) (gap_rows limit p ts vs)
  unfolding gap_rows
  gap_rows-Inserted limit p [] vs = done
  gap_rows-Inserted limit p (t ∷ ts) vs = elim (Bool-cases (num.lt limit (t ⊖ p))) [
    | inl far ↦ rw far (pause far (gap_rows-Inserted limit t ts (other_values vs)))
    | inr near ↦ rw near (keep near (gap_rows-Inserted limit t ts (other_values vs)))
  ]

  -- With three samples or more, two neighbouring rows of the chart that both have a value are never
  -- further apart than the limit, so no line is drawn across a pause. The rows are the samples in
  -- their order, with a row without a value one second after each sample that is followed by a
  -- pause longer than the limit, and with no other row.
  pub with_gaps-NoBridge :
      (a b c : R) (ts : List R) (vs : List (Option R)) (min_gap : R)
      → let rest = b ∷ c ∷ ts in
        let limit = gap_limit a rest min_gap in
        (rows : List (R × Option R)) × (with_gaps (a ∷ rest) vs min_gap
          ≡ (a, first_value vs) ∷ rows)
        × NoBridge limit (a, first_value vs) rows
        × Inserted limit a (pair_up rest (other_values vs)) rows
  unfolding with_gaps
  with_gaps-NoBridge a b c ts vs min_gap =
      let limit = gap_limit a (b ∷ c ∷ ts) min_gap in
      (
        gap_rows limit a (b ∷ c ∷ ts) (other_values vs),
        rw (ltb_three (length ts)) refl,
        gap_rows-NoBridge limit a (first_value vs) (b ∷ c ∷ ts) (other_values vs),
        gap_rows-Inserted limit a (b ∷ c ∷ ts) (other_values vs),
      )

  module _ (laws : IsRounded R) where
    open laws use {ordered, add_of_sub, add_mono, add_zero, of_nat_mono, of_nat_lt}
    open ordered use {le_refl, le_trans, le_total, lt-eq-not-le}

    later : (p : R) → p ≼ p ⊕ num.of_nat 1
    later p =
        let step = add_mono p (num.of_nat 0) (num.of_nat 1) (of_nat_mono 0 1 (omega arith)) in
        rw (add_zero p) at step

    -- A pause longer than a limit of a second or more has room for a row one second in.
    room : (limit p t : R) → num.of_nat 1 ≼ limit → limit ≺ t ⊖ p → p ⊕ num.of_nat 1 ≼ t
    room limit p t one h = add_of_sub p t (num.of_nat 1) (
        ground (
          arith,
          lt-eq-not-le limit (t ⊖ p),
          lt-eq-not-le (num.of_nat 1) (t ⊖ p),
          le_trans (t ⊖ p) (num.of_nat 1) limit,
        ))

    gap_rows-Rises :
        (limit p : R) (ts : List R) (vs : List (Option R))
        → num.of_nat 1 ≼ limit
        → IsSorted p ts
        → Rises p (gap_rows limit p ts vs)
    unfolding gap_rows
    gap_rows-Rises limit p [] vs one h = tt
    gap_rows-Rises limit p (t ∷ ts) vs one (le, h) = elim (Bool-cases (num.lt limit (t ⊖ p))) [
      | inl far ↦
          rw far
            (later p, (room limit p t one far, gap_rows-Rises limit t ts (other_values vs) one h))
      | inr near ↦ rw near (le, gap_rows-Rises limit t ts (other_values vs) one h)
    ]

    limit_ge : (t : R) (ts : List R) (min_gap : R) → min_gap ≼ gap_limit t ts min_gap
    unfolding gap_limit
    limit_ge t ts min_gap =
        let m = median_step (steps_from t ts) ⊗ num.of_nat 4 in
        ground (arith, le_refl min_gap, lt-eq-not-le min_gap m, le_total min_gap m)

    pair_up-Rises :
        (p : R) (ts : List R) (vs : List (Option R)) → IsSorted p ts → Rises p (pair_up ts vs)
    pair_up-Rises p [] vs h = tt
    pair_up-Rises p (t ∷ ts) vs (le, h) = (le, pair_up-Rises t ts (other_values vs) h)

    -- If the samples come in order of time, so do the rows, where the shortest pause to be shown is
    -- a second or more.
    with_gaps-Rises :
        (t : R) (ts : List R) (vs : List (Option R)) (min_gap : R)
        → num.of_nat 1 ≼ min_gap
        → IsSorted t ts
        → Rises t (with_gaps (t ∷ ts) vs min_gap)
    unfolding with_gaps
    with_gaps-Rises t ts vs min_gap one h = elim (Bool-cases (ltb (suc (length ts)) 3)) [
      | inl few ↦ rw few (le_refl t, pair_up-Rises t ts (other_values vs) h)
      | inr many ↦
          let wide =
            le_trans (num.of_nat 1) min_gap (gap_limit t ts min_gap) one (limit_ge t ts min_gap) in
          rw many (le_refl t, gap_rows-Rises (gap_limit t ts min_gap) t ts (other_values vs) wide h)
    ]
