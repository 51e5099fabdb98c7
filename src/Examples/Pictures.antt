-- ===== src/Examples/Pictures.antt =====
-- The charts, the schematic and the texts at concrete inputs.
use nasa_cpp.Base.{◌≡◌, refl, none, some, [], ◌∷◌, arith, List, Option}
use nasa_cpp.Base.Int.{int_number, ℤ, pos, ℤ-IsOrdered, ℤ-IsRounded}
use nasa_cpp.Base.Text.{codes}
use nasa_cpp.Charts.Gaps.{with_gaps, gap_limit, other_values, pair_up}
use nasa_cpp.Charts.Gaps.Laws.{NoBridge, Inserted, with_gaps-NoBridge}
use nasa_cpp.Charts.Timeline.{add_samples}
use nasa_cpp.Charts.Timeline.Segments.{IsTiled, segments-IsTiled}
use nasa_cpp.Overview.Resample.{resample, latest_from, latest, resample_lem}
use nasa_cpp.Overview.Today.{today, unknown_heat_differs}
use nasa_cpp.Views.Energy.{row}
use nasa_cpp.Format.Escape.{esc, decode, decode-esc}

abbrev temperatures : List (Option ℤ)
temperatures = some (pos 20) ∷ some (pos 21) ∷ some (pos 22) ∷ some (pos 23) ∷ []

-- Three samples at a minute's distance, and one an hour later.
with_gaps-NoBridge_example :
    let rest = pos 60 ∷ pos 120 ∷ pos 3720 ∷ [] in
    let limit = gap_limit (pos 0) rest (pos 180) in
    (rows : List (ℤ × Option ℤ)) × (with_gaps (pos 0 ∷ rest) temperatures (pos 180)
      ≡ (pos 0, some (pos 20)) ∷ rows)
    × NoBridge limit (pos 0, some (pos 20)) rows
    × Inserted limit (pos 0) (pair_up rest (other_values temperatures)) rows
with_gaps-NoBridge_example =
    with_gaps-NoBridge (pos 0) (pos 60) (pos 120) (pos 3720 ∷ []) temperatures (pos 180)

segments-IsTiled_example : IsTiled (pos 50) (pos 500) (
    add_samples
      (pos 50)
      (pos 500)
      (pos 400)
      []
      (pos 0 ∷ pos 60 ∷ pos 120 ∷ [])
      (some "HEAT" ∷ some "HEAT" ∷ some "OFF" ∷ []))
segments-IsTiled_example =
    segments-IsTiled ℤ-IsOrdered (pos 50) (pos 500) (pos 400) (pos 0 ∷ pos 60 ∷ pos 120 ∷ [])
      (some "HEAT" ∷ some "HEAT" ∷ some "OFF" ∷ []) (refl, (refl, tt))

resample_lem_example :
    resample ((pos 0, some (pos 1)) ∷ (pos 5, none) ∷ (pos 7, some (pos 3)) ∷ []) (pos 0) (pos 10) 3
    ≡ some (pos 1) ∷ none ∷ some (pos 3) ∷ []
unfolding latest_from latest
resample_lem_example =
    resample_lem ℤ-IsRounded ((pos 0, some (pos 1)) ∷ (pos 5, none) ∷ (pos 7, some (pos 3)) ∷ [])
      (pos 0) (pos 10) 3 (refl, (refl, tt)) refl (omega arith) (omega arith)

decode-esc_example : decode none (esc (some (codes "a<b & \"c\""))) ≡ some (codes "a<b & \"c\"")
decode-esc_example = decode-esc (codes "a<b & \"c\"")

unknown_heat_differs_example :
    ((today (some (pos 100)) (some (pos 104)) none (some (pos 312))).cop ≡ none)
    × ((row (some (pos 100) ∷ some (pos 104) ∷ []) (none ∷ some (pos 312) ∷ []) 0).cop
        ≡ some (pos 0))
unknown_heat_differs_example =
    unknown_heat_differs ℤ-IsRounded (some (pos 100)) (some (pos 104)) none (some (pos 312)) (pos 4)
      refl refl refl
