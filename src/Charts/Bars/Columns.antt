-- ===== src/Charts/Bars/Columns.antt =====
-- `barChart` and `niceMax` of web/nasa_web/static/js/charts.js: the scale and the bars.
use nasa_cpp.Base.{
  ℕ, suc, ◌-◌, inl, inr, max, Option, none, some, List, [], ◌∷◌, ◌++◌, arith, length, or_else,
  if◌then◌else◌, All, All-map, All-append, Bool-cases,
}
use nasa_cpp.Base.Number.{Number, IsRounded, ◌⊕◌, ◌⊖◌, ◌⊗◌, ◌⊘◌, ◌≼◌, ◌≺◌, max_num, min_num}
use nasa_cpp.Base.Extremes.{le_max_left, le_max_right}
use nasa_cpp.Charts.Bars.{inner_width}

-- The path of one bar.
pub record Column (R : Type 0) : Type 0 where
  pub series : ℕ
  pub x : R
  pub top : R
  pub height : R
  pub width : R
  pub radius : R  -- of its upper corners

-- The measures of a chart: `innerH`, `innerW`, the numbers of groups and of series, and `nice`.
pub record Frame (R : Type 0) : Type 0 where
  pub inner_height : R
  pub inner_w : R
  pub groups : ℕ
  pub series : ℕ
  pub nice : R

module _ {R : Type 0} ⦃num : Number R⦄ where
  -- `nf` of `niceMax`
  abbrev pub nice_factor : R → R
  nice_factor f =
      if num.le f (num.of_nat 1)
      then num.of_nat 1
      else if num.le f (num.of_nat 2)
      then num.of_nat 2
      else if num.le f (num.decimal 25 1)
      then num.decimal 25 1
      else if num.le f (num.of_nat 5)
      then num.of_nat 5
      else num.of_nat 10

  -- `niceMax(v)`; `power` stands for `Math.pow(10, Math.floor(Math.log10(v)))`.
  unfoldable pub nice_max : (R → R) → R → R
  nice_max power v = let exp = power v in nice_factor (v ⊘ exp) ⊗ exp

  -- `Math.max(...)` of the values of a group, from `m` on
  abbrev pub peak_of : R → List (Option R) → R
  peak_of m [] = m
  peak_of m (v ∷ vs) = max_num (or_else v (num.of_nat 0)) (peak_of m vs)

  -- `max`
  unfoldable pub peak : List (List (Option R)) → R
  peak [] = num.decimal 1 3
  peak (g ∷ gs) = peak_of (peak gs) g

  -- `[0, 0.25, 0.5, 0.75, 1].map((f) => f * nice)`
  unfoldable pub ticks : R → List R
  ticks nice =
      num.of_nat 0 ⊗ nice
      ∷ num.decimal 25 2 ⊗ nice
      ∷ num.decimal 5 1 ⊗ nice
      ∷ num.decimal 75 2 ⊗ nice
      ∷ num.of_nat 1 ⊗ nice
      ∷ []

  -- `gw` and `bw`
  abbrev pub group_width : Frame R → R
  group_width f = f.inner_w ⊘ num.of_nat (max 1 f.groups)

  abbrev pub bar_width : Frame R → R
  bar_width f = max_num (num.of_nat 3) (
      min_num (num.of_nat 28) (
        (group_width f ⊗ num.decimal 72 2 ⊖ num.of_nat (f.series - 1) ⊗ num.of_nat 2)
        ⊘ num.of_nat f.series))

  -- `pad.t + innerH - (v / nice) * innerH`
  unfoldable pub y_at : Frame R → R → R
  y_at f v = num.of_nat 8 ⊕ f.inner_height ⊖ v ⊘ f.nice ⊗ f.inner_height

  -- `gx` of group `gi`
  abbrev pub group_x : Frame R → ℕ → R
  group_x f gi =
      num.of_nat 52
      ⊕ num.of_nat gi ⊗ group_width f
      ⊕ (group_width f
          ⊖ (bar_width f ⊗ num.of_nat f.series ⊕ num.of_nat 2 ⊗ num.of_nat (f.series - 1)))
        ⊘ num.of_nat 2

  abbrev pub column : Frame R → ℕ → ℕ → R → Column R
  column f gi si v =
      let bw = bar_width f in
      let top = y_at f v in
      let h = max_num (num.of_nat 1) (num.of_nat 8 ⊕ f.inner_height ⊖ top) in
      record {
        series = si;
        x = group_x f gi ⊕ num.of_nat si ⊗ (bw ⊕ num.of_nat 2);
        top = top;
        height = h;
        width = bw;
        radius = min_num (num.of_nat 4) (min_num (bw ⊘ num.of_nat 2) h);
      }

  -- The bars of group `gi`, from series `si` on: none for a value that is missing or not positive.
  unfoldable pub columns_of : Frame R → ℕ → ℕ → List (Option R) → List (Column R)
  columns_of f gi si [] = []
  columns_of f gi si (none ∷ vs) = columns_of f gi (suc si) vs
  columns_of f gi si (some v ∷ vs) =
      let rest = columns_of f gi (suc si) vs in
      if num.le v (num.of_nat 0) then rest else column f gi si v ∷ rest

  unfoldable pub columns_from : Frame R → ℕ → List (List (Option R)) → List (Column R)
  unfolding columns_of y_at
  columns_from f gi [] = []
  columns_from f gi (g ∷ gs) = columns_of f gi 0 g ++ columns_from f (suc gi) gs

  -- The frame of a chart of some groups with some series, `height` pixels high, in an element that is
  -- `client` pixels wide.
  unfoldable pub frame : (R → R) → ℕ → ℕ → ℕ → List (List (Option R)) → Frame R
  frame power client height series groups = record {
    inner_height = num.of_nat (height - 8 - 26);
    inner_w = num.of_nat (inner_width client);
    groups = length groups;
    series = series;
    nice = nice_max power (peak groups);
  }

  unfoldable pub bar_chart : (R → R) → ℕ → ℕ → ℕ → List (List (Option R)) → List (Column R)
  unfolding frame columns_from
  bar_chart power client height series groups =
      columns_from (frame power client height series groups) 0 groups

  -- A bar begins between the first and the last of the grid lines.
  abbrev pub InGrid : Frame R → Column R → Type 0
  InGrid f c = (y_at f (num.of_nat 1 ⊗ f.nice) ≼ c.top) × (c.top ≼ y_at f (num.of_nat 0 ⊗ f.nice))

  module _ (laws : IsRounded R) where
    open laws use {ordered, of_nat_mono, sub_anti, mul_mono, div_mono, zero_mul, one_mul}
    open ordered use {le_refl, le_trans, le_total, lt-eq-not-le}

    abbrev Low : R → List (Option R) → Type 0
    Low m vs = All (λ (v : Option R). or_else v (num.of_nat 0) ≼ m) vs

    Low-mono : (m n : R) (vs : List (Option R)) → m ≼ n → Low m vs → Low n vs
    Low-mono m n vs h low =
        All-map (λ (v : Option R). or_else v (num.of_nat 0) ≼ m)
          (λ (v : Option R). or_else v (num.of_nat 0) ≼ n)
          (λ v k. le_trans (or_else v (num.of_nat 0)) m n k h) vs low

    peak_of_bounds : (m : R) (vs : List (Option R)) → (m ≼ peak_of m vs) × Low (peak_of m vs) vs
    peak_of_bounds m [] = (le_refl m, tt)
    peak_of_bounds m (v ∷ vs) =
        let (up, low) = peak_of_bounds m vs in
        let x = or_else v (num.of_nat 0) in
        let right = le_max_right ordered x (peak_of m vs) in
        (
          le_trans m (peak_of m vs) (max_num x (peak_of m vs)) up right,
          (
            le_max_left ordered x (peak_of m vs),
            Low-mono (peak_of m vs) (max_num x (peak_of m vs)) vs right low,
          ),
        )

    y_at_anti :
        (f : Frame R) (a b : R)
        → num.of_nat 0 ≺ f.nice
        → num.of_nat 0 ≼ f.inner_height
        → a ≼ b
        → y_at f b ≼ y_at f a
    unfolding y_at
    y_at_anti f a b pos tall h =
        sub_anti (num.of_nat 8 ⊕ f.inner_height) (a ⊘ f.nice ⊗ f.inner_height)
          (b ⊘ f.nice ⊗ f.inner_height)
          (mul_mono (a ⊘ f.nice) (b ⊘ f.nice) f.inner_height tall (div_mono a b f.nice pos h))

    columns_of-InGrid :
        (f : Frame R) (gi si : ℕ) (vs : List (Option R))
        → num.of_nat 0 ≺ f.nice
        → num.of_nat 0 ≼ f.inner_height
        → Low f.nice vs
        → All (InGrid f) (columns_of f gi si vs)
    unfolding columns_of
    columns_of-InGrid f gi si [] pos tall h = tt
    columns_of-InGrid f gi si (none ∷ vs) pos tall (q, h) =
        columns_of-InGrid f gi (suc si) vs pos tall h
    columns_of-InGrid f gi si (some v ∷ vs) pos tall (q, h) =
        elim (Bool-cases (num.le v (num.of_nat 0))) [
          | inl idle ↦ rw idle (columns_of-InGrid f gi (suc si) vs pos tall h)
          | inr busy ↦ rw busy (
            (
              rw (one_mul f.nice) (y_at_anti f v f.nice pos tall q),
              rw (zero_mul f.nice) (
                  y_at_anti f (num.of_nat 0) v pos tall
                    (ground (arith, le_total v (num.of_nat 0)))),
            ),
            columns_of-InGrid f gi (suc si) vs pos tall h,
          )
        ]

    columns_from-InGrid :
        (f : Frame R) (gi : ℕ) (gs : List (List (Option R)))
        → num.of_nat 0 ≺ f.nice
        → num.of_nat 0 ≼ f.inner_height
        → All (λ (vs : List (Option R)). Low f.nice vs) gs
        → All (InGrid f) (columns_from f gi gs)
    unfolding columns_from
    columns_from-InGrid f gi [] pos tall h = tt
    columns_from-InGrid f gi (g ∷ gs) pos tall (q, h) =
        All-append (InGrid f) (columns_of f gi 0 g) (columns_from f (suc gi) gs)
          (columns_of-InGrid f gi 0 g pos tall q) (columns_from-InGrid f (suc gi) gs pos tall h)

    peak_bounds :
        (n : R) (gs : List (List (Option R)))
        → peak gs ≼ n
        → All (λ (vs : List (Option R)). Low n vs) gs
    unfolding peak
    peak_bounds n [] h = tt
    peak_bounds n (g ∷ gs) h =
        let (up, low) = peak_of_bounds (peak gs) g in
        (
          Low-mono (peak_of (peak gs) g) n g h low,
          peak_bounds n gs (le_trans (peak gs) (peak_of (peak gs) g) n up h),
        )

    -- The factor that `niceMax` takes is 1 or more, and not below a quotient up to 10.
    nice_factor_bounds :
        (f : R) → f ≼ num.of_nat 10 → (f ≼ nice_factor f) × (num.of_nat 1 ≼ nice_factor f)
    nice_factor_bounds f ten = ground (
      arith,
      of_nat_mono 1 1 (omega arith),
      of_nat_mono 1 2 (omega arith),
      of_nat_mono 1 5 (omega arith),
      of_nat_mono 1 10 (omega arith),
      le_total f (num.of_nat 2),
      le_trans (num.of_nat 2) f (num.decimal 25 1),
      le_trans (num.of_nat 1) (num.of_nat 2) (num.decimal 25 1),
    )

    nice_max_bounds :
        (power : R → R) (v : R)
        → num.of_nat 0 ≺ power v
        → v ⊘ power v ≼ num.of_nat 10
        → v ≼ v ⊘ power v ⊗ power v
        → (num.of_nat 0 ≺ nice_max power v) × (v ≼ nice_max power v)
    unfolding nice_max
    nice_max_bounds power v pos ten back =
        let p = power v in
        let q = v ⊘ p in
        let n = nice_factor q in
        let (fits, one) = nice_factor_bounds q ten in
        let le : num.of_nat 0 ≼ p =
          ground (arith, lt-eq-not-le (num.of_nat 0) p, le_total (num.of_nat 0) p) in
        let scaled : p ≼ n ⊗ p = rw (one_mul p) at (mul_mono (num.of_nat 1) n p le one) in
        (
          ground (
            arith,
            lt-eq-not-le (num.of_nat 0) p,
            lt-eq-not-le (num.of_nat 0) (n ⊗ p),
            le_trans p (n ⊗ p) (num.of_nat 0) scaled,
          ),
          le_trans v (q ⊗ p) (n ⊗ p) back (mul_mono q n p le fits),
        )

    -- Every bar of a bar chart begins between the lines of its last and its first tick. The power of ten
    -- that `niceMax` computes is taken to be positive and not below a tenth of the greatest value, and
    -- that value to lose nothing if it is divided by the power and multiplied by it again.
    pub bar_chart-InGrid :
        (power : R → R) (client height series : ℕ) (groups : List (List (Option R)))
        → num.of_nat 0 ≺ power (peak groups)
        → peak groups ⊘ power (peak groups) ≼ num.of_nat 10
        → peak groups ≼ peak groups ⊘ power (peak groups) ⊗ power (peak groups)
        → All
            (InGrid (frame power client height series groups))
            (bar_chart power client height series groups)
    unfolding bar_chart frame
    bar_chart-InGrid power client height series groups pos ten back =
        let f = frame power client height series groups in
        let (above, fits) = nice_max_bounds power (peak groups) pos ten back in
        columns_from-InGrid f 0 groups above (of_nat_mono 0 (height - 8 - 26) (omega arith))
          (peak_bounds f.nice groups fits)
