-- ===== src/Views/Energy/Summary.antt =====
-- The tiles, bars and table that `load` of web/nasa_web/static/js/views/energy.js draws.
use nasa_cpp.Base.{
  ℕ, suc, get_elem?, ◌≡◌, refl, sym, ap, subst, ◌∙◌, All-map, inl, inr, Bool, true, false, not,
  ◌&&◌, Option, none, some, List, [], ◌∷◌, ◌++◌, map, arith, length, or_else, is_null, All, filter,
  Bool-cases,
}
use nasa_cpp.Base.Number.{Number, IsRounded, ◌⊖◌, ◌⊘◌, ◌≼◌, ◌≺◌, max_num}
use nasa_cpp.Base.Sorting.{
  sort_by, IsSortedBy, sort_by-All, All-sort_by, sort_by-IsSortedBy, length-sort_by,
}
use nasa_cpp.Base.Picking.{Picks, filter-Picks}
use nasa_cpp.Views.Energy.{Row, rows_from, total, average_cop, with_data}
use nasa_cpp.Views.Energy.Periods.{Calendar, Mode, boundaries}

pub record Summary (R : Type 0) : Type 0 where
  pub used : R  -- totalUsed
  pub made : R
  pub free : R
  pub cop : Option R
  pub used_each : R  -- for each period with data
  pub made_each : R
  pub best : Option (Row R)
  pub bars : List (Option R × Option R)  -- kWh used and made, by period
  pub cop_bars : List (Option R)
  pub table : List (Row R)

module _ {R : Type 0} ⦃num : Number R⦄ where
  abbrev pub cop_of_row : Row R → R
  cop_of_row r = or_else r.cop (num.of_nat 0)

  -- `r.cop != null && r.used > 100`
  abbrev pub is_candidate : Row R → Bool
  is_candidate r = not (is_null r.cop) && num.lt (num.of_nat 100) (or_else r.used (num.of_nat 0))

  -- `(a, b) => b.cop - a.cop` is not positive
  abbrev pub better_first : Row R → Row R → Bool
  better_first a b = not (num.lt (num.of_nat 0) (cop_of_row b ⊖ cop_of_row a))

  abbrev head_of : List (Row R) → Option (Row R)
  head_of [] = none
  head_of (r ∷ rs) = some r

  -- `best`
  unfoldable pub best_row : List (Row R) → Option (Row R)
  best_row rows = head_of (sort_by better_first (filter is_candidate rows))

  abbrev pub kilo : Option R → Option R
  kilo none = none
  kilo (some x) = some (x ⊘ num.of_nat 1000)

  -- `[...rows].reverse()`
  unfoldable pub reversed : List (Row R) → List (Row R)
  reversed [] = []
  reversed (r ∷ rs) = reversed rs ++ r ∷ []

  unfoldable pub summary : List (Row R) → Summary R
  unfolding best_row reversed
  summary rows =
      let used = total (λ r. r.used) rows in
      let made = total (λ r. r.made) rows in
      let n = num.of_nat (with_data rows) in
      record {
        used = used;
        made = made;
        free = max_num (num.of_nat 0) (made ⊖ used);
        cop = average_cop rows;
        used_each = used ⊘ n;
        made_each = made ⊘ n;
        best = best_row rows;
        bars = map (λ (r : Row R). (kilo r.used, kilo r.made)) rows;
        cop_bars = map (λ (r : Row R). r.cop) rows;
        table = reversed rows;
      }

  -- `load`: `vi` and `vo` are what the server says the two counters were at the starts and now.
  unfoldable pub load_energy :
      {D : Type 0} → Calendar D → Mode → D → List (Option R) → List (Option R) → Summary R
  unfolding summary
  load_energy cal mode now vi vo = summary (rows_from vi vo 0 (length (boundaries cal mode now)))

  -- A coefficient is known, and more than 100 Wh were used.
  abbrev pub CanBeBest : Row R → Type 0
  CanBeBest r = (c u : R) × (r.cop ≡ some c) × (r.used ≡ some u) × (num.of_nat 100 ≺ u)

  abbrev pub NotAbove : Row R → Row R → Type 0
  NotAbove q r = (x y : R) × (q.cop ≡ some x) × (r.cop ≡ some y) × (x ≼ y)

  -- The best of some rows: one of them, and none is above it.
  abbrev pub IsBestOf : List (Row R) → Option (Row R) → Type 0
  IsBestOf rows none = rows ≡ []
  IsBestOf rows (some r) =
      ((i : ℕ) × (get_elem? rows i ≡ some r)) × All (λ (q : Row R). NotAbove q r) rows

  -- Each element has a place.
  places : (rows : List (Row R)) → All (λ (r : Row R). (i : ℕ) × (get_elem? rows i ≡ some r)) rows
  places [] = tt
  places (r ∷ rows) = (
    (0, refl),
    All-map (λ (q : Row R). (i : ℕ) × (get_elem? rows i ≡ some q))
        (λ (q : Row R). (i : ℕ) × (get_elem? (r ∷ rows) i ≡ some q)) (λ q (i, e). (suc i, e)) rows
        (places rows),
  )

  known_best :
      (cop used : Option R)
      → (not (is_null cop) && num.lt (num.of_nat 100) (or_else used (num.of_nat 0))) ≡ true
      → num.lt (num.of_nat 100) (num.of_nat 0) ≡ false
      → (c u : R) × (cop ≡ some c) × (used ≡ some u) × (num.of_nat 100 ≺ u)
  known_best none used h low = cc
  known_best (some c) none h low = absurd (ground arith)
  known_best (some c) (some u) h low = (c, u, refl, refl, h)

  not_best : (r : Row R) → is_candidate r ≡ false → ¬ CanBeBest r
  not_best r h (c, u, known, read, more) = ground (arith, known, read)

  module _ (laws : IsRounded R) where
    open laws use {ordered, of_nat_mono, sub_pos, sub_mono, sub_self}
    open ordered use {le_refl, le_trans, le_total, lt-eq-not-le}

    better_first_lem : (a b : Row R) → better_first a b ≡ num.le (cop_of_row b) (cop_of_row a)
    better_first_lem a b =
        let x = cop_of_row a in
        let y = cop_of_row b in
        ground (
          arith,
          sub_pos x y,
          sub_mono y x x,
          sub_self x,
          lt-eq-not-le x y,
          lt-eq-not-le (num.of_nat 0) (y ⊖ x),
        )

    total_first : (a b : Row R) → better_first a b ≡ false → better_first b a ≡ true
    total_first a b h =
        ground (
          arith,
          better_first_lem a b,
          better_first_lem b a,
          le_total (cop_of_row a) (cop_of_row b),
        )

    trans_first :
        (a b c : Row R)
        → better_first a b ≡ true
        → better_first b c ≡ true
        → better_first a c ≡ true
    trans_first a b c h k = ground (
      arith,
      better_first_lem a b,
      better_first_lem b c,
      better_first_lem a c,
      le_trans (cop_of_row c) (cop_of_row b) (cop_of_row a),
    )

    can_be_best : (r : Row R) → is_candidate r ≡ true → CanBeBest r
    can_be_best r h =
        let low = of_nat_mono 0 100 (omega arith) in
        known_best r.cop r.used h (ground (arith, lt-eq-not-le (num.of_nat 100) (num.of_nat 0)))

    filter-All : (p : Row R → Bool) (rows : List (Row R)) → All (λ r. p r ≡ true) (filter p rows)
    filter-All p [] = tt
    filter-All p (r ∷ rows) = elim (Bool-cases (p r)) [
      | inl kept ↦ rw kept (kept, filter-All p rows)
      | inr left ↦ rw left (filter-All p rows)
    ]

    no_rows : (rs : List (Row R)) → length rs ≡ 0 → rs ≡ []
    no_rows [] h = refl
    no_rows (r ∷ rs) h = absurd (omega arith)

    beside :
        (rows : List (Row R)) (r : Row R) (y : R)
        → r.cop ≡ some y
        → All (λ (q : Row R). is_candidate q ≡ true) rows
        → All (λ (q : Row R). cop_of_row q ≼ cop_of_row r) rows
        → All (λ (q : Row R). NotAbove q r) rows
    beside [] r y known fits low = tt
    beside (q ∷ rows) r y known (fit, fits) (le, low) =
        let (x, u, read, used, more) = can_be_best q fit in
        let le' : x ≼ y = rw (read, known) at le in
        ((x, y, read, known, le'), beside rows r y known fits low)

    from_sorted :
        (rows ys : List (Row R))
        → ys ≡ sort_by better_first (filter is_candidate rows)
        → IsSortedBy better_first ys
        → All (λ (r : Row R). is_candidate r ≡ true) ys
        → IsBestOf (filter is_candidate rows) (head_of ys)
    from_sorted rows [] e sorted fit =
        no_rows (filter is_candidate rows)
          (ground (arith, length-sort_by better_first (filter is_candidate rows), ap length e))
    from_sorted rows (r ∷ rs) e (low, sorted) (fit, fits) =
        let kept = filter is_candidate rows in
        let P = λ (q : Row R). cop_of_row q ≼ cop_of_row r in
        let Q = λ (q : Row R). (i : ℕ) × (get_elem? kept i ≡ some q) in
        let below : All P (r ∷ rs) = (
          le_refl (cop_of_row r),
          All-map (λ (q : Row R). better_first r q ≡ true) P (λ q h. sym (better_first_lem r q) ∙ h)
              rs low,
        ) in
        let placed : All Q (r ∷ rs) =
          subst (All Q) (sym e) (sort_by-All better_first Q kept (places kept)) in
        let (y, u, known, read, more) = can_be_best r fit in
        let lower = All-sort_by better_first P kept (subst (All P) e below) in
        (placed.0, beside kept r y known (filter-All is_candidate rows) lower)

    -- The page names as the best period one of its rows that used more than 100 Wh and has a coefficient
    -- of performance, and no other such row has a higher one; it names none only if there is none.
    pub best_row_lem :
        (rows : List (Row R))
        → (eligible : List (Row R)) × Picks CanBeBest rows eligible
          × IsBestOf eligible (best_row rows)
    unfolding best_row
    best_row_lem rows = (
      filter is_candidate rows,
      filter-Picks CanBeBest is_candidate rows can_be_best not_best,
      from_sorted rows (sort_by better_first (filter is_candidate rows)) refl
          (sort_by-IsSortedBy better_first total_first trans_first (filter is_candidate rows))
          (sort_by-All better_first (λ r. is_candidate r ≡ true) (filter is_candidate rows)
            (filter-All is_candidate rows)),
    )
