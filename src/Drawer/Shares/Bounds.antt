-- ===== src/Drawer/Shares/Bounds.antt =====
-- The shares of time in the side panel (web/nasa_web/static/js/drawer.js), against the whole.
use nasa_cpp.Base.{
  ℕ, zero, suc, ◌≤◌, ◌≡◌, sym, ◌∙◌, inl, inr, true, false, Option, List, [], ◌∷◌, map, foldl,
  String, JsMap, lookup, insert-All, lookup-All, take, length-take, length-map, length, All,
  All-map, Option-cases, Bool-cases, arith,
}
use nasa_cpp.Base.Number.{Number, IsRounded, ◌⊕◌, ◌⊖◌, ◌⊗◌, ◌⊘◌, ◌≼◌, ◌≺◌}
use nasa_cpp.Base.Sorting.{sort_by, IsSortedBy, sort_by-All, sort_by-IsSortedBy}
use nasa_cpp.Drawer.Figures.{stays, add_stay, add_stays, state_totals, or_zero}
use nasa_cpp.Drawer.Shares.{longer_first, whole, shares}

module _ {R : Type 0} ⦃num : Number R⦄ where
  -- The samples come in order of time, and the last one is not later than the end.
  abbrev pub IsTimed : List (R × Option String) → R → Type 0
  IsTimed [] finish = Unit
  IsTimed ((t, text) ∷ []) finish = t ≼ finish
  IsTimed ((t, text) ∷ (u, more) ∷ rest) finish = (t ≼ u) × IsTimed ((u, more) ∷ rest) finish

  -- A share is one of a hundred.
  abbrev pub IsShare : String × R → Type 0
  IsShare (k, x) = (num.of_nat 0 ≼ x) × (x ≼ num.of_nat 100)

  -- No share is greater than one before it.
  abbrev pub IsFalling : List (String × R) → Type 0
  IsFalling [] = Unit
  IsFalling (t ∷ ts) = All (λ (u : String × R). u.1 ≼ t.1) ts × IsFalling ts

  module _ (laws : IsRounded R) where
    open laws use {
      ordered, of_nat_mono, of_nat_lt, sub_mono, sub_self, sub_pos, add_mono, add_comm, add_zero,
      div_mono, div_self, zero_div, mul_mono, zero_mul, one_mul,
    }
    open ordered use {le_refl, le_trans, le_total, lt-eq-not-le, same-eq-and_le}

    abbrev Lasts : String × R → Type 0
    Lasts (k, x) = num.of_nat 0 ≼ x

    stay_nonneg : (t u : R) → t ≼ u → num.of_nat 0 ≼ u ⊖ t
    stay_nonneg t u h = rw (sub_self t) at (sub_mono t u t h)

    stays-Lasts :
        (samples : List (R × Option String)) (finish : R)
        → IsTimed samples finish
        → All Lasts (stays samples finish)
    unfolding stays
    stays-Lasts [] finish h = tt
    stays-Lasts ((t, text) ∷ []) finish h = (stay_nonneg t finish h, tt)
    stays-Lasts ((t, text) ∷ (u, more) ∷ rest) finish (le, h) =
        (stay_nonneg t u le, stays-Lasts ((u, more) ∷ rest) finish h)

    sum_nonneg : (a b : R) → num.of_nat 0 ≼ a → num.of_nat 0 ≼ b → b ≼ a ⊕ b
    sum_nonneg a b h k = rw (add_zero b, add_comm b a) at (add_mono b (num.of_nat 0) a h)

    add_stays-Lasts :
        (totals : JsMap R) (ss : List (String × R))
        → All Lasts totals
        → All Lasts ss
        → All Lasts (add_stays totals ss)
    unfolding add_stays
    add_stays-Lasts totals [] h k = h
    add_stays-Lasts totals ((j, x) ∷ ss) h (p, k) =
        let old = lookup j totals in
        let low : num.of_nat 0 ≼ or_zero old = elim (Option-cases old) [
          | inl new ↦ rw new (le_refl (num.of_nat 0))
          | inr (y, found) ↦
              let q = lookup-All (λ y. num.of_nat 0 ≼ y) j totals h found in
              rw found (ground (arith, le_refl (num.of_nat 0)))
        ] in
        add_stays-Lasts (add_stay totals (j, x)) ss
          (insert-All Lasts j (or_zero old ⊕ x) totals h
            (le_trans (num.of_nat 0) x (or_zero old ⊕ x) p (sum_nonneg (or_zero old) x low p)))
          k

    abbrev sum_from : R → JsMap R → R
    sum_from acc totals = foldl (λ a (t : String × R). a ⊕ t.1) acc totals

    -- The sum is not less than what it starts from, nor than any of its parts.
    sum_from-le :
        (acc : R) (totals : JsMap R)
        → num.of_nat 0 ≼ acc
        → All Lasts totals
        → (acc ≼ sum_from acc totals) × All (λ (t : String × R). t.1 ≼ sum_from acc totals) totals
    sum_from-le acc [] h k = (le_refl acc, tt)
    sum_from-le acc ((j, x) ∷ totals) h (p, k) =
        let bigger = sum_nonneg acc x h p in
        let start : acc ≼ acc ⊕ x = rw (add_comm acc x) (sum_nonneg x acc p h) in
        let low = le_trans (num.of_nat 0) x (acc ⊕ x) p bigger in
        let (up, parts) = sum_from-le (acc ⊕ x) totals low k in
        (
          le_trans acc (acc ⊕ x) (sum_from (acc ⊕ x) totals) start up,
          (le_trans x (acc ⊕ x) (sum_from (acc ⊕ x) totals) bigger up, parts),
        )

    whole_pos :
        (totals : JsMap R)
        → All Lasts totals
        → (num.of_nat 0 ≺ whole totals) × All (λ (t : String × R). t.1 ≼ whole totals) totals
    unfolding whole
    whole_pos totals h =
        let zero = num.of_nat 0 in
        let (up, parts) = sum_from-le zero totals (le_refl zero) h in
        let sum = sum_from zero totals in
        elim (Bool-cases (num.same sum zero)) [
          | inl empty ↦
              let one = of_nat_lt 0 1 (omega arith) (omega arith) in
              let flat : sum ≼ num.of_nat 1 =
                le_trans sum zero (num.of_nat 1) (ground (arith, same-eq-and_le sum zero))
                  (of_nat_mono 0 1 (omega arith)) in
              rw empty (
                one,
                All-map (λ (t : String × R). t.1 ≼ sum) (λ (t : String × R). t.1 ≼ num.of_nat 1)
                    (λ t k. le_trans t.1 sum (num.of_nat 1) k flat) totals parts,
              )
          | inr filled ↦
              rw filled (ground (arith, same-eq-and_le sum zero, lt-eq-not-le zero sum), parts)
        ]

    -- The share of a time in a whole.
    abbrev share : R → R → R
    share w x = x ⊘ w ⊗ num.of_nat 100

    share_mono : (w x y : R) → num.of_nat 0 ≺ w → x ≼ y → share w x ≼ share w y
    share_mono w x y pos h =
        mul_mono (x ⊘ w) (y ⊘ w) (num.of_nat 100) (of_nat_mono 0 100 (omega arith))
          (div_mono x y w pos h)

    share_bounds :
        (w x : R)
        → num.of_nat 0 ≺ w
        → num.of_nat 0 ≼ x
        → x ≼ w
        → (num.of_nat 0 ≼ share w x) × (share w x ≼ num.of_nat 100)
    share_bounds w x pos low high = (
      rw (zero_div w pos, zero_mul (num.of_nat 100)) at (share_mono w (num.of_nat 0) x pos low),
      rw (div_self w pos, one_mul (num.of_nat 100)) at (share_mono w x w pos high),
    )

    longer_first_lem : (a b : String × R) → longer_first a b ≡ num.le b.1 a.1
    longer_first_lem a b = ground (
      arith,
      sub_pos a.1 b.1,
      sub_mono b.1 a.1 a.1,
      sub_self a.1,
      lt-eq-not-le a.1 b.1,
      lt-eq-not-le (num.of_nat 0) (b.1 ⊖ a.1),
    )

    abbrev to_share : R → String × R → String × R
    to_share w t = (t.0, share w t.1)

    shown_lem :
        (w : R) (n : ℕ) (ts : JsMap R)
        → num.of_nat 0 ≺ w
        → All (λ (t : String × R). (num.of_nat 0 ≼ t.1) × (t.1 ≼ w)) ts
        → IsSortedBy longer_first ts
        → All IsShare (map (to_share w) (take n ts)) × IsFalling (map (to_share w) (take n ts))
    shown_lem w zero ts pos h s = (tt, tt)
    shown_lem w (suc n) [] pos h s = (tt, tt)
    shown_lem w (suc n) (t ∷ ts) pos ((low, high), h) (first, s) =
        let (all, falls) = shown_lem w n ts pos h s in
        ((share_bounds w t.1 pos low high, all), (below n ts first, falls))
      where
        below :
            (m : ℕ) (us : JsMap R)
            → All (λ u. longer_first t u ≡ true) us
            → All (λ (u : String × R). u.1 ≼ share w t.1) (map (to_share w) (take m us))
        below zero us k = tt
        below (suc m) [] k = tt
        below (suc m) (u ∷ us) (le, k) =
            (share_mono w u.1 t.1 pos (sym (longer_first_lem t u) ∙ le), below m us k)

    longer_total : (a b : String × R) → longer_first a b ≡ false → longer_first b a ≡ true
    longer_total a b h =
        ground (arith, longer_first_lem a b, longer_first_lem b a, le_total a.1 b.1)

    longer_trans :
        (a b c : String × R)
        → longer_first a b ≡ true
        → longer_first b c ≡ true
        → longer_first a c ≡ true
    longer_trans a b c h k = ground (
      arith,
      longer_first_lem a b,
      longer_first_lem b c,
      longer_first_lem a c,
      le_trans c.1 b.1 a.1,
    )

    -- Of a series of states in order of time, which ends by the end of the range, the panel shows at
    -- most four shares; each is between 0 and 100 per cent, and none is greater than one before it.
    pub shares_lem :
        (samples : List (R × Option String)) (finish : R)
        → IsTimed samples finish
        → let shown = shares (state_totals samples finish) in
          All IsShare shown × IsFalling shown × (length shown ≤ 4)
    unfolding shares state_totals
    shares_lem samples finish timed =
        let totals = add_stays [] (stays samples finish) in
        let low = add_stays-Lasts [] (stays samples finish) tt (stays-Lasts samples finish timed) in
        let (pos, parts) = whole_pos totals low in
        let both = All-both (whole totals) totals low parts in
        let (all, falls) =
          shown_lem (whole totals) 4 (sort_by longer_first totals) pos
            (sort_by-All longer_first
              (λ (t : String × R). (num.of_nat 0 ≼ t.1) × (t.1 ≼ whole totals)) totals both)
            (sort_by-IsSortedBy longer_first longer_total longer_trans totals) in
        (
          all,
          falls,
          omega (
            arith,
            length-map (to_share (whole totals)) (take 4 (sort_by longer_first totals)),
            length-take 4 (sort_by longer_first totals),
          ),
        )
      where
        All-both :
            (w : R) (xs : JsMap R)
            → All Lasts xs
            → All (λ (t : String × R). t.1 ≼ w) xs
            → All (λ (t : String × R). (num.of_nat 0 ≼ t.1) × (t.1 ≼ w)) xs
        All-both w [] p q = tt
        All-both w (x ∷ xs) (p, ps) (q, qs) = ((p, q), All-both w xs ps qs)
