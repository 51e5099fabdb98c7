-- ===== src/Examples/Heating.antt =====
-- The heating curve and the heat output at concrete inputs (web/nasa_web/static/js/store.js).
use nasa_cpp.Base.{refl, some, [], ◌∷◌, or_else, List}
use nasa_cpp.Base.Int.{int_number, ℤ, pos, ℤ-IsRounded}
use nasa_cpp.Base.Number.{◌⊕◌, ◌≼◌}
use nasa_cpp.Entity.{Entity}
use nasa_cpp.Store.{Store, set_entities, add_entities, val, ent, fsv, first_with_prefix}
use nasa_cpp.Store.Names
use nasa_cpp.Store.WaterLaw.{curve, curve_of, water_law_target}
use nasa_cpp.Store.WaterLaw.Target.{water_law_target_bounds}
use nasa_cpp.Examples.Data.{plain, sensor, outer, empty_store}

-- A cold end at 45 degrees and a warm end at 30.
abbrev house : List (Entity ℤ)
house =
    outer
    ∷ sensor "4205" "fsv 2011 cold" (some (pos 0))
    ∷ sensor "4206" "fsv 2012 warm" (some (pos 15))
    ∷ sensor "4207" "fsv 2021 water" (some (pos 45))
    ∷ sensor "4208" "fsv 2022 water" (some (pos 30))
    ∷ sensor "1" Names.flow (some (pos 60))
    ∷ sensor "2" Names.water_out (some (pos 35))
    ∷ sensor "3" Names.water_in (some (pos 34))
    ∷ sensor "4" Names.freq (some (pos 40))
    ∷ sensor "5" Names.power (some (pos 1000))
    ∷ []

abbrev heated : Store ℤ
heated = set_entities plain empty_store house

water_law_target_bounds_example :
    let offset = or_else (val plain heated Names.law_offset) (pos 0) in
    (pos 30 ⊕ offset ≼ pos 45) × (pos 45 ≼ pos 45 ⊕ offset)
unfolding set_entities add_entities val fsv first_with_prefix water_law_target curve_of curve ent
water_law_target_bounds_example =
    water_law_target_bounds plain ℤ-IsRounded heated 1 (pos 45) (pos 30) (pos 45) refl refl refl
      refl refl
