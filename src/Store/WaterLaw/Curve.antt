-- ===== src/Store/WaterLaw/Curve.antt =====
-- The shape of the heating curve (web/nasa_web/static/js/store.js).
use nasa_cpp.Base.{◌≡◌, arith}
use nasa_cpp.Base.Number.{Number, IsRounded, ◌⊕◌, ◌⊖◌, ◌⊗◌, ◌⊘◌, ◌≼◌, ◌≺◌}
use nasa_cpp.Store.WaterLaw.{curve}

module _ {R : Type 0} ⦃num : Number R⦄ (laws : IsRounded R) where
  open laws use {
    ordered, of_nat_mono, of_nat_lt, add_mono, add_zero, sub_mono, sub_self, sub_pos, mul_mono,
    mul_anti, zero_mul, one_mul, div_mono, zero_div, div_self,
  }
  open ordered use {le_refl, le_trans, le_total, lt-eq-not-le}

  lt→le : (x y : R) → x ≺ y → x ≼ y
  lt→le x y h = ground (arith, lt-eq-not-le x y, le_total x y)

  -- The part of the way from the cold to the warm end.
  abbrev share : R → R → R → R
  share o tc tw = (o ⊖ tc) ⊘ (tw ⊖ tc)

  share_mono : (o o' tc tw : R) → tc ≺ tw → o ≼ o' → share o tc tw ≼ share o' tc tw
  share_mono o o' tc tw h k =
      div_mono (o ⊖ tc) (o' ⊖ tc) (tw ⊖ tc) (sub_pos tc tw h) (sub_mono o o' tc k)

  share_bounds :
      (o tc tw : R)
      → tc ≺ tw
      → tc ≼ o
      → o ≼ tw
      → (num.of_nat 0 ≼ share o tc tw) × (share o tc tw ≼ num.of_nat 1)
  share_bounds o tc tw h k l =
      let wide = sub_pos tc tw h in
      let low = share_mono tc o tc tw h k in
      let high = share_mono o tw tc tw h l in
      (rw (sub_self tc, zero_div (tw ⊖ tc) wide) at low, rw (div_self (tw ⊖ tc) wide) at high)

  -- The middle branch of `curve`.
  abbrev middle : R → R → R → R
  middle f wc ww = wc ⊕ f ⊗ (ww ⊖ wc)

  drop_le_zero : (wc ww : R) → ww ≼ wc → ww ⊖ wc ≼ num.of_nat 0
  drop_le_zero wc ww h = let fall = sub_mono ww wc wc h in rw (sub_self wc) at fall

  middle_anti : (f g wc ww : R) → ww ≼ wc → f ≼ g → middle g wc ww ≼ middle f wc ww
  middle_anti f g wc ww h k =
      add_mono wc (g ⊗ (ww ⊖ wc)) (f ⊗ (ww ⊖ wc)) (mul_anti f g (ww ⊖ wc) (drop_le_zero wc ww h) k)

  middle_bounds :
      (f wc ww : R)
      → ww ≼ wc
      → wc ⊕ (ww ⊖ wc) ≡ ww
      → num.of_nat 0 ≼ f
      → f ≼ num.of_nat 1
      → (ww ≼ middle f wc ww) × (middle f wc ww ≼ wc)
  middle_bounds f wc ww h e k l =
      let low = middle_anti f (num.of_nat 1) wc ww h l in
      let high = middle_anti (num.of_nat 0) f wc ww h k in
      (rw (one_mul (ww ⊖ wc), e) at low, rw (zero_mul (ww ⊖ wc), add_zero wc) at high)

  -- Where the warm end asks for no warmer water than the cold end (and their difference is exact),
  -- the target lies between the two ends, whatever the outdoor temperature.
  pub curve_bounds :
      (o tc tw wc ww : R)
      → ww ≼ wc
      → wc ⊕ (ww ⊖ wc) ≡ ww
      → (ww ≼ curve o tc tw wc ww) × (curve o tc tw wc ww ≼ wc)
  unfolding curve
  curve_bounds o tc tw wc ww w e = ground (
    arith,
    le_refl wc,
    le_refl ww,
    le_total o tc,
    le_total o tw,
    lt-eq-not-le tc tw,
    share_bounds o tc tw,
    middle_bounds (share o tc tw) wc ww w e,
  )

  -- Where the warm end asks for no warmer water than the cold end (and their difference is exact), a
  -- warmer day never asks for warmer water.
  pub curve_falls :
      (o o' tc tw wc ww : R)
      → ww ≼ wc
      → wc ⊕ (ww ⊖ wc) ≡ ww
      → o ≼ o'
      → curve o' tc tw wc ww ≼ curve o tc tw wc ww
  unfolding curve
  curve_falls o o' tc tw wc ww w e h = ground (
    arith,
    le_refl wc,
    le_refl ww,
    le_total o tc,
    le_total o tw,
    le_total o' tc,
    le_total o' tw,
    le_trans o o' tc h,
    le_trans tw o o',
    lt-eq-not-le tc tw,
    share_bounds o tc tw,
    share_bounds o' tc tw,
    share_mono o o' tc tw,
    middle_bounds (share o tc tw) wc ww w e,
    middle_bounds (share o' tc tw) wc ww w e,
    middle_anti (share o tc tw) (share o' tc tw) wc ww w,
  )
