-- ===== src/Store/Heat.antt =====
-- `heatOutput` and `liveCop` of web/nasa_web/static/js/store.js.
use nasa_cpp.Base.{
  ◌≡◌, refl, Bool, true, false, ◌||◌, Option, none, some, String, arith, if◌then◌else◌,
}
use nasa_cpp.Base.Number.{Number, IsRounded, ◌⊖◌, ◌⊗◌, ◌⊘◌, ◌≼◌, ◌≺◌, max_num}
use nasa_cpp.Store.{Store, val}
use nasa_cpp.Store.Names

module _ {R : Type 0} ⦃num : Number R⦄ where
  -- `freq === 0`
  abbrev stands_still : Option R → Bool
  stands_still none = false
  stands_still (some f) = num.same f (num.of_nat 0)

  -- `!freq`
  abbrev pub is_falsy : Option R → Bool
  is_falsy none = true
  is_falsy (some f) = num.same f (num.of_nat 0)

  unfoldable pub heat_of : Option R → Option R → Option R → Option R → Option R
  heat_of (some flow) (some out) (some inn) freq = some (
      if stands_still freq
      then num.of_nat 0
      else max_num (num.of_nat 0) (flow ⊘ num.of_nat 60 ⊗ num.of_nat 4186 ⊗ (out ⊖ inn)))
  heat_of _ _ _ _ = none

  unfoldable pub cop_of : Option R → Option R → Option R → Option R
  cop_of (some heat) (some power) freq =
      if num.lt power (num.of_nat 150) || is_falsy freq then none else some (heat ⊘ power)
  cop_of _ _ _ = none

  module _ (lower : String → String) where
    unfoldable pub heat_output : Store R → Option R
    unfolding heat_of
    heat_output s =
        heat_of (val lower s Names.flow) (val lower s Names.water_out) (val lower s Names.water_in)
          (val lower s Names.freq)

    unfoldable pub live_cop : Store R → Option R
    unfolding cop_of
    live_cop s = cop_of (heat_output s) (val lower s Names.power) (val lower s Names.freq)

  module _ (laws : IsRounded R) where
    open laws use {
      ordered, of_nat_lt, sub_mono, sub_self, mul_mono, mul_anti, zero_mul, div_mono, zero_div,
    }
    open ordered use {le_refl, le_total, lt-eq-not-le, le_trans}

    heat_of_nonneg :
        (flow out inn freq : Option R) (h : R)
        → heat_of flow out inn freq ≡ some h
        → num.of_nat 0 ≼ h
    unfolding heat_of
    heat_of_nonneg (some flow) (some out) (some inn) freq h e =
        let q = flow ⊘ num.of_nat 60 ⊗ num.of_nat 4186 ⊗ (out ⊖ inn) in
        ground
          (arith, le_refl (num.of_nat 0), lt-eq-not-le (num.of_nat 0) q, le_total (num.of_nat 0) q)
    heat_of_nonneg none out inn freq h e = cc
    heat_of_nonneg (some flow) none inn freq h e = cc
    heat_of_nonneg (some flow) (some out) none freq h e = cc

    -- The heat output is never negative, whatever the sensors say.
    heat_output_nonneg :
        (lower : String → String) (s : Store R) (h : R)
        → heat_output lower s ≡ some h
        → num.of_nat 0 ≼ h
    unfolding heat_output
    heat_output_nonneg lower s h e = heat_of_nonneg _ _ _ _ h e

    cop_of_lem :
        (heat power freq : Option R) (c : R)
        → ((h : R) → heat ≡ some h → num.of_nat 0 ≼ h)
        → cop_of heat power freq ≡ some c
        → (h : R) × (p : R) × (heat ≡ some h)
          × (power ≡ some p)
          × (c ≡ h ⊘ p)
          × (num.of_nat 150 ≼ p)
          × (is_falsy freq ≡ false)
          × (num.of_nat 0 ≼ c)
    unfolding cop_of
    cop_of_lem none power freq c nonneg e = cc
    cop_of_lem (some h) none freq c nonneg e = cc
    cop_of_lem (some h) (some p) freq c nonneg e =
        let busy : num.of_nat 150 ≼ p = ground (arith, lt-eq-not-le p (num.of_nat 150)) in
        let positive : num.of_nat 0 ≺ p = ground (
          arith,
          of_nat_lt 0 150 (omega arith) (omega arith),
          lt-eq-not-le (num.of_nat 0) (num.of_nat 150),
          lt-eq-not-le (num.of_nat 0) p,
          le_trans (num.of_nat 150) p (num.of_nat 0) busy,
        ) in
        let share = div_mono (num.of_nat 0) h p positive (nonneg h refl) in
        let share' : num.of_nat 0 ≼ h ⊘ p = rw (zero_div p positive) at share in
        let same : c ≡ h ⊘ p = ground arith in
        (h, p, refl, refl, same, busy, ground arith, rw same share')

    -- A coefficient of performance is shown only for a running compressor that draws at least 150 W,
    -- is the heat output divided by the power, and is not negative.
    pub live_cop_lem :
        (lower : String → String) (s : Store R) (c : R)
        → live_cop lower s ≡ some c
        → (heat : R) × (power : R) × (heat_output lower s ≡ some heat)
          × (val lower s Names.power ≡ some power)
          × (c ≡ heat ⊘ power)
          × (num.of_nat 150 ≼ power)
          × (is_falsy (val lower s Names.freq) ≡ false)
          × (num.of_nat 0 ≼ c)
    unfolding live_cop
    live_cop_lem lower s c e = cop_of_lem _ _ _ c (heat_output_nonneg lower s) e
