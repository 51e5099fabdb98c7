-- ===== src/Store/WaterLaw.antt =====
-- `waterLawTarget` and `outletTarget` of web/nasa_web/static/js/store.js: the heating curve.
pub mod Curve
pub mod Target
use nasa_cpp.Base.{
  ℕ, Bool, false, ◌||◌, Option, none, some, String, ◌==◌, or_else, if◌then◌else◌, str_eq,
}
use nasa_cpp.Base.Number.{Number, ◌⊕◌, ◌⊖◌, ◌⊗◌, ◌⊘◌}
use nasa_cpp.Store.{Store, val, text, fsv}
use nasa_cpp.Store.Names

-- `m === "AUTO"`
abbrev pub is_auto : Option String → Bool
is_auto none = false
is_auto (some m) = str_eq m "AUTO"

module _ {R : Type 0} ⦃num : Number R⦄ where
  -- The three branches that give `target`.
  unfoldable pub curve : R → R → R → R → R → R
  curve outdoor t_cold t_warm w_cold w_warm =
      if num.le outdoor t_cold || num.le t_warm t_cold
      then w_cold
      else if num.le t_warm outdoor
      then w_warm
      else w_cold ⊕ (outdoor ⊖ t_cold) ⊘ (t_warm ⊖ t_cold) ⊗ (w_warm ⊖ w_cold)

  -- `none` where one of the five values is `null`
  unfoldable pub curve_of : Option R → Option R → Option R → Option R → Option R → Option R
  curve_of (some o) (some tc) (some tw) (some wc) (some ww) = some (curve o tc tw wc ww)
  curve_of _ _ _ _ _ = none

  module _ (lower : String → String) where
    unfoldable pub water_law_target : Store R → ℕ → Option R
    unfolding curve_of
    water_law_target s zone =
        let w_cold = fsv s (if zone == 1 then "2021" else "2031") in
        let w_warm = fsv s (if zone == 1 then "2022" else "2032") in
        elim (curve_of (val lower s Names.outdoor) (fsv s "2011") (fsv s "2012") w_cold w_warm) [
          | none ↦ none
          | some target ↦ some (target ⊕ or_else (val lower s Names.law_offset) (num.of_nat 0))
        ]

  module _ (lower : String → String) (show : R → String) where
    unfoldable pub outlet_target : Store R → ℕ → Option R
    outlet_target s zone =
        if is_auto (text lower show s Names.mode)
        then water_law_target lower s zone
        else val lower s (if zone == 1 then Names.outlet1_target else Names.outlet2_target)
