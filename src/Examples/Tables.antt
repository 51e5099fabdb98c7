-- ===== src/Examples/Tables.antt =====
-- The lists, figures, loads of the pages at concrete inputs.
use nasa_cpp.Base.{
  ℕ, Bool, ◌≡◌, ◌≤◌, refl, none, some, true, false, Option, List, [], ◌∷◌, ◌++◌, String, Perm,
  NoRepeat, All, arith, ltb, length, if◌then◌else◌, str_eq,
}
use nasa_cpp.Base.Text.{codes}
use nasa_cpp.Base.Int.{int_number, ℤ, pos, ℤ-IsRounded}
use nasa_cpp.Base.Sorting.{Ordered}
use nasa_cpp.Base.Picking.{Picks}
use nasa_cpp.Base.Collation.{Sign, negative, zero, positive, IsCollation}
use nasa_cpp.Entity.{Entity}
use nasa_cpp.Store.{Store, Message, on_message, ent}
use nasa_cpp.Store.Names
use nasa_cpp.Controls.{forget}
use nasa_cpp.Controls.Widget.{stepper}
use nasa_cpp.Charts.Bars.Columns.{InGrid, frame, bar_chart, nice_max, peak, bar_chart-InGrid}
use nasa_cpp.Drawer.Figures.{state_totals}
use nasa_cpp.Drawer.Shares.{shares}
use nasa_cpp.Drawer.Shares.Bounds.{IsShare, IsFalling, shares_lem}
use nasa_cpp.Views.Entities.Table.{Before, IsListed, sorted_list, sorted_list_lem}
use nasa_cpp.Views.Energy.{Row}
use nasa_cpp.Views.Energy.Summary.{CanBeBest, IsBestOf, best_row, best_row_lem}
use nasa_cpp.Views.History.{Range, Move, move}
use nasa_cpp.Views.History.Reload.{
  PastEvent, moved, tick, answered, load, past_step, past_run, mounted,
}
use nasa_cpp.Views.History.Reload.InOrder.{Names, Hold, past_run-Names}
use nasa_cpp.Views.History.Load.{PanelDef, panel_defs, state_defs, panels_at_mount, load_ids}
use nasa_cpp.Views.History.Load.Asked.{Asks, all_series, load_ids-Asks, missing_sensor_stops_load}
use nasa_cpp.Views.Settings.Items.{control}
use nasa_cpp.Views.Settings.Marker.{
  ValueSlot, message, timeout, is_marked, slot_step, slot_run, confirmed_stays_marked,
}
use nasa_cpp.Examples.Data.{plain, locale_int, outer, two, good, empty_store}

-- The shorter text first.
abbrev by_length : String → String → Sign
by_length x y =
    if ltb (length (codes x)) (length (codes y))
    then negative
    else if ltb (length (codes y)) (length (codes x))
    then positive
    else zero

by_length-IsCollation : IsCollation by_length
by_length-IsCollation = record { flip = λ x y. ground arith; trans = λ x y z h k. ground arith }

sorted_list_lem_example :
    (kept : List (Entity ℤ)) × Picks
      (IsListed by_length by_length plain str_eq "sensor" "")
      two
      kept
    × Perm (sorted_list by_length by_length plain str_eq "sensor" "" two) kept
    × Ordered
        (Before by_length by_length)
        (sorted_list by_length by_length plain str_eq "sensor" "" two)
sorted_list_lem_example =
    sorted_list_lem by_length by_length plain str_eq "sensor" "" two by_length-IsCollation
      by_length-IsCollation

-- The stepper of a setting waits for 15, and 15 arrives.
abbrev waiting : ValueSlot ℤ
waiting = record {
  entity = outer;
  panel = record {
    pending = ("4204", record { value = pos 15; timer = 0 }) ∷ [];
    timers = (1, forget "4204" 0) ∷ [];
    awaiting = [];
    next_timer = 2;
  };
  shown = control (stepper true "15" false false);
}

abbrev reported : Entity ℤ
reported = record outer { value = some (pos 15) }

confirmed_stays_marked_example :
    let s =
      slot_run locale_int true good
        (slot_step locale_int true good waiting (message reported))
        (timeout 1 ∷ message reported ∷ []) in
    (s.panel.pending ≡ []) × (s.shown ≡ waiting.shown) × (is_marked s.shown ≡ true)
confirmed_stays_marked_example =
    confirmed_stays_marked locale_int true good waiting (record { value = pos 15; timer = 0 })
      reported (timeout 1 ∷ message reported ∷ []) refl refl refl refl

abbrev june : List (Row ℤ)
june =
    record { used = some (pos 200); made = some (pos 600); cop = some (pos 3) }
    ∷ record { used = some (pos 50); made = some (pos 450); cop = some (pos 9) }
    ∷ record { used = some (pos 300); made = some (pos 1200); cop = some (pos 4) }
    ∷ []

best_row_lem_example :
    (eligible : List (Row ℤ)) × Picks CanBeBest june eligible × IsBestOf eligible (best_row june)
best_row_lem_example = best_row_lem ℤ-IsRounded june

abbrev one_group : List (List (Option ℤ))
one_group = (some (pos 2) ∷ none ∷ some (pos 5) ∷ []) ∷ []

bar_chart-InGrid_example :
    All
      (InGrid (frame (λ v. pos 1) 600 280 3 one_group))
      (bar_chart (λ v. pos 1) 600 280 3 one_group)
unfolding nice_max peak
bar_chart-InGrid_example =
    bar_chart-InGrid ℤ-IsRounded (λ v. pos 1) 600 280 3 one_group refl refl refl

abbrev day_samples : List (ℤ × Option String)
day_samples =
    (pos 0, some "ROOM") ∷ (pos 30, some "TANK") ∷ (pos 50, some "ROOM") ∷ (pos 90, none) ∷ []

shares_lem_example :
    All IsShare (shares (state_totals day_samples (pos 100)))
    × IsFalling (shares (state_totals day_samples (pos 100)))
    × (length (shares (state_totals day_samples (pos 100))) ≤ 4)
shares_lem_example = shares_lem ℤ-IsRounded day_samples (pos 100) (refl, (refl, (refl, refl)))

abbrev filled : Store ℤ
filled = (on_message plain empty_store (Message.snapshot two good)).0

load_ids-Asks_example :
    let charts = panels_at_mount plain filled panel_defs in
    (ids : List String) × (load_ids plain filled charts ≡ some ids)
    × NoRepeat ids
    × Asks plain filled ids (all_series charts)
    × Asks plain filled ids state_defs
load_ids-Asks_example = load_ids-Asks plain filled

abbrev power_panel : PanelDef
power_panel = record {
  id = "power";
  title = "Electrical power";
  unit = "W";
  series = (Names.power, "Power") ∷ [];
}

missing_sensor_stops_load_example : load_ids plain empty_store ([] ++ power_panel ∷ []) ≡ none
unfolding ent
missing_sensor_stops_load_example =
    missing_sensor_stops_load plain empty_store [] [] power_panel [] [] Names.power "Power" refl
      refl

-- No sensor is gone.
abbrev all_there : ℕ → Bool
all_there i = false

-- A day back and a day on, and the reload that the 30 s timer starts, each answered at once or later.
abbrev there_and_back : List (PastEvent ℤ)
there_and_back =
    moved (pos 1000000) Move.earlier all_there
    ∷ answered 0 true all_there
    ∷ tick (pos 1000030) all_there
    ∷ moved (pos 1000040) Move.later all_there
    ∷ answered 0 true all_there
    ∷ tick (pos 1000060) all_there
    ∷ answered 0 true all_there
    ∷ answered 0 true all_there
    ∷ []

abbrev last_day : Range ℤ
last_day = record { span = pos 86400; finish = none }

there_and_back-idle : (past_run (mounted 4 (pos 999990) last_day) there_and_back).waiting ≡ []
unfolding past_run past_step load move
there_and_back-idle = refl

past_run-Names_example :
    let s = past_run (mounted 4 (pos 999990) last_day) there_and_back in
    (p : ℤ × ℤ) × Hold p s.charts × Names s.bar p
past_run-Names_example =
    past_run-Names 4 (pos 999990) last_day there_and_back
      (
        (λ i. refl),
        (
          refl,
          refl,
          (λ i. refl),
          (
            (λ i. refl),
            (
              (λ i. refl),
              (
                refl,
                refl,
                (λ i. refl),
                ((λ i. refl), (refl, refl, (λ i. refl), (refl, refl, (λ i. refl), tt))),
              ),
            ),
          ),
        ),
      )
      there_and_back-idle
