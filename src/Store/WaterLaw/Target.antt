-- ===== src/Store/WaterLaw/Target.antt =====
-- The water law of web/nasa_web/static/js/store.js over the live store.
use nasa_cpp.Base.{
  ℕ, ◌≡◌, inl, inr, true, ◌||◌, Option, none, some, String, arith, Option-cases, ◌==◌, or_else,
  if◌then◌else◌, is_null, ◌↔◌,
}
use nasa_cpp.Base.Number.{Number, IsRounded, ◌⊕◌, ◌⊖◌, ◌≼◌}
use nasa_cpp.Store.{Store, val, fsv}
use nasa_cpp.Store.Names
use nasa_cpp.Store.WaterLaw.{curve_of, water_law_target}
use nasa_cpp.Store.WaterLaw.Curve.{curve_bounds}

-- The field settings of a zone's heating curve.
abbrev pub cold_end : ℕ → String
cold_end zone = if zone == 1 then "2021" else "2031"

abbrev pub warm_end : ℕ → String
warm_end zone = if zone == 1 then "2022" else "2032"

module _ {R : Type 0} ⦃num : Number R⦄ (lower : String → String) where
  -- A zone has no water law target exactly when the outdoor temperature or one of the four field
  -- settings of its curve has no value.
  water_law_target-eq-none_iff :
      (s : Store R) (zone : ℕ)
      → (water_law_target lower s zone ≡ none) ↔ (
          (is_null (val lower s Names.outdoor)
            || is_null (fsv s "2011")
            || is_null (fsv s "2012")
            || is_null (fsv s (cold_end zone))
            || is_null (fsv s (warm_end zone)))
          ≡ true)
  unfolding water_law_target
  water_law_target-eq-none_iff s zone = ground arith

  module _ (laws : IsRounded R) where
    open laws use {add_comm, add_mono}

    curve_of_bounds :
        (o tc tw : Option R) (wc ww t : R)
        → ww ≼ wc
        → wc ⊕ (ww ⊖ wc) ≡ ww
        → curve_of o tc tw (some wc) (some ww) ≡ some t
        → (ww ≼ t) × (t ≼ wc)
    unfolding curve_of
    curve_of_bounds (some o) (some tc) (some tw) wc ww t w e h =
        ground (arith, curve_bounds laws o tc tw wc ww w e)
    curve_of_bounds none tc tw wc ww t w e h = cc
    curve_of_bounds (some o) none tw wc ww t w e h = cc
    curve_of_bounds (some o) (some tc) none wc ww t w e h = cc

    add_mono_left : (x y z : R) → x ≼ y → x ⊕ z ≼ y ⊕ z
    add_mono_left x y z h = rw (add_comm x z, add_comm y z) (add_mono z x y h)

    -- Where the warm end of a zone's curve asks for no warmer water than the cold end (and their
    -- difference is exact), every target of that zone lies between the two ends, both moved by
    -- the water law offset.
    pub water_law_target_bounds :
        (s : Store R) (zone : ℕ) (wc ww t : R)
        → fsv s (cold_end zone) ≡ some wc
        → fsv s (warm_end zone) ≡ some ww
        → ww ≼ wc
        → wc ⊕ (ww ⊖ wc) ≡ ww
        → water_law_target lower s zone ≡ some t
        → let offset = or_else (val lower s Names.law_offset) (num.of_nat 0) in
          (ww ⊕ offset ≼ t) × (t ≼ wc ⊕ offset)
    unfolding water_law_target
    water_law_target_bounds s zone wc ww t cold warm w e h =
        elim (Option-cases (
          curve_of (val lower s Names.outdoor) (fsv s "2011") (fsv s "2012") (some wc) (some ww))) [
            | inl missing ↦ ground arith
            | inr (t', found) ↦
                let offset = or_else (val lower s Names.law_offset) (num.of_nat 0) in
                let inside = curve_of_bounds _ _ _ wc ww t' w e found in
                ground (arith, add_mono_left ww t' offset, add_mono_left t' wc offset)
          ]
