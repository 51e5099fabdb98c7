-- ===== src/Examples/Panels.antt =====
-- The steppers, the side panel and the pages at concrete inputs.
use nasa_cpp.Base.{
  false, All, Option, String, ℕ, ◌≡◌, ◌↔◌, refl, none, some, true, [], ◌∷◌, lookup, List, ◌≢◌,
}
use nasa_cpp.Base.Int.{int_number, ℤ, pos, ℤ-IsOrdered}
use nasa_cpp.Entity.{Entity}
use nasa_cpp.Controls.{on_click, Panel, send, press, next_value, pending_value, confirm_state}
use nasa_cpp.Controls.Timers.{lookup_timer, delete_timer}
use nasa_cpp.Controls.Debounce.{IsDebounced}
use nasa_cpp.Controls.Burst.{
  Action, click, timeout, report, fresh, act, session, presses, aim, session_one_command,
  burst_one_command, fresh-IsDebounced, session-IsDebounced,
}
use nasa_cpp.Controls.Limits.{Within, session-Within}
use nasa_cpp.Controls.Races.{confirm_state_splits}
use nasa_cpp.Drawer.{Drawer, skeleton, blank, drawn, Step, opening, answer, closing, steps}
use nasa_cpp.Drawer.Requests.{IsSound, steps-IsSound}
use nasa_cpp.Drawer.Late.{request, last_request_shown, late_answer_blanks}
use nasa_cpp.Examples.Data.{sensor, outer, water}

abbrev room : Entity ℤ
room = sensor "4201" "Target" (some (pos 20))

abbrev clicks : List (Action ℤ)
clicks = click false (some room) true ∷ click false (some room) true ∷ []

session_one_command_example :
    (◌≡◌ {A = ℕ} 1 1)
    × (pos 22 ≡ pos 22)
    × (pending_value (lookup "4201" (session fresh clicks).0.pending) ≡ some (pos 22))
unfolding session act on_click fresh lookup_timer delete_timer
session_one_command_example = session_one_command clicks 1 1 "4201" (pos 22) (pos 22) tt refl refl

burst_one_command_example :
    (t : ℕ) × (v : ℤ) × (lookup_timer t (presses fresh room (true ∷ true ∷ [])).timers
      ≡ some (send "4201" v))
    × (aim none room (true ∷ true ∷ []) ≡ some v)
    × ((lookup_timer 1 (presses fresh room (true ∷ true ∷ [])).timers ≡ some (send "4201" (pos 22)))
        ↔ ((◌≡◌ {A = ℕ} 1 t) × (pos 22 ≡ v)))
unfolding fresh
burst_one_command_example =
    burst_one_command fresh room true (true ∷ []) 1 (pos 22) fresh-IsDebounced

-- One click aims at 21 degrees, and the entity then reports 21 degrees.
abbrev clicked : Panel ℤ
clicked = (session fresh (click false (some room) true ∷ [])).0

clicked-IsDebounced : IsDebounced clicked
clicked-IsDebounced =
    session-IsDebounced fresh (click false (some room) true ∷ []) tt fresh-IsDebounced

abbrev arrived : Entity ℤ
arrived = record room { value = some (pos 21) }

confirm_state_splits_example :
    let c' = press (confirm_state clicked arrived) arrived true in
    (lookup_timer 0 c'.timers ≡ some (send "4201" (pos 21)))
    × (lookup_timer 1 c'.timers ≡ some (send "4201" (next_value none arrived true)))
    × (◌≢◌ {A = ℕ} 0 1)
unfolding session act on_click fresh lookup_timer delete_timer
confirm_state_splits_example =
    confirm_state_splits clicked arrived (record { value = pos 21; timer = 0 }) true
      clicked-IsDebounced refl refl refl

-- Two clicks, the timeout of the second, a state message, and another click with its timeout.
abbrev evening : List (Action ℤ)
evening =
    click false (some room) true
    ∷ click false (some room) true
    ∷ timeout 1
    ∷ report (record room { value = some (pos 22) })
    ∷ click false (some room) true
    ∷ timeout 2
    ∷ []

session-Within_example : All (Within (λ id. pos 15) (λ id. pos 25)) (session fresh evening).1
session-Within_example =
    session-Within (λ id. pos 15) (λ id. pos 25) ℤ-IsOrdered evening
      ((refl, refl, refl), ((refl, refl, refl), (tt, (tt, ((refl, refl, refl), (tt, tt))))))

abbrev shut : Drawer ℤ
shut = record {
  hidden = true;
  current_id = none;
  chart = none;
  panels = 0;
  stats = none;
  area = skeleton;
  waiting = [];
}

abbrev visits : List (Step ℤ)
visits =
    opening (some outer) "4204" (pos 24)
    ∷ opening (some water) "4238" (pos 24)
    ∷ answer 1 true
    ∷ answer 0 true
    ∷ closing
    ∷ []

steps-IsSound_example : IsSound (steps shut visits)
steps-IsSound_example =
    steps-IsSound shut visits (record { seen = refl; stats_ok = tt; area_ok = tt })

last_request_shown_example :
    let q = request 4 outer (pos 24) in
    let d =
      steps
        (record shut { panels = 3 })
        (opening (some outer) "4204" (pos 24) ∷ answer 1 true ∷ answer 0 true ∷ []) in
    (d.stats ≡ some q) × (d.area ≡ drawn q.numeric q true)
last_request_shown_example =
    last_request_shown (record shut { panels = 3 }) outer "4204" (pos 24) ((0, true) ∷ []) true refl

late_answer_blanks_example :
    let d = steps shut (
      opening (some outer) "4204" (pos 6)
      ∷ opening (some outer) "4204" (pos 24)
      ∷ answer 0 true
      ∷ answer 0 true
      ∷ []) in
    (d.area ≡ blank) × (d.stats ≡ some (request 2 outer (pos 24)))
late_answer_blanks_example = late_answer_blanks shut outer "4204" (pos 6) (pos 24) true refl refl

abbrev valve_samples : List (ℤ × Option String)
valve_samples = (pos 0, some "ROOM") ∷ (pos 50, some "TANK") ∷ (pos 70, some "ROOM") ∷ []
