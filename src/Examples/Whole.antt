-- ===== src/Examples/Whole.antt =====
-- The steppers over time, and the page as a whole, at concrete inputs.
use nasa_cpp.Base.{
  ℕ, Bool, ◌≡◌, ◌≢◌, ◌≤◌, ◌+◌, ◌⊎◌, refl, none, some, true, false, List, [], ◌∷◌, lookup, arith,
  eq_iff,
}
use nasa_cpp.Base.Int.{int_number, ℤ, pos}
use nasa_cpp.Entity.{Entity}
use nasa_cpp.Controls.{send, forget, press, on_click, fire, reply, next_value}
use nasa_cpp.Controls.Timers.{lookup_timer, delete_timer}
use nasa_cpp.Controls.Burst.{Action, click, timeout, answer, fresh, act, session}
use nasa_cpp.Controls.Settling.{steps_left, waits, IsCalm, CanHappen, pending_fades}
use nasa_cpp.Store.{Message, on_message, by_id, set_entities, add_entities}
use nasa_cpp.Store.Connection.{opened, on_socket}
use nasa_cpp.Store.Coherence.{IsCoherent, on_message-IsCoherent, Distinct}
use nasa_cpp.Store.Refinement.{unfilled}
use nasa_cpp.Drawer.{open_entity}
use nasa_cpp.App
use nasa_cpp.Page.{
  Screen, Moment, Happening, socket, message, open_panel, hash_change, start, happen, run_page,
  emit_all, listener, open_panel_of, refresh_drawer,
}
use nasa_cpp.Page.Start.{InPhase, view_from_first_snapshot}
use nasa_cpp.Page.Truth.{TellsOutage, run_page-TellsOutage}
use nasa_cpp.Page.Panel.{PanelOk, open_panel_current, snapshot_leaves_panel}
use nasa_cpp.Overview.Lifecycle.{
  Live, LiveEvent, mount, answered, today_answered, rerender, update, unmount, frame, interval,
  live_run,
}
use nasa_cpp.Overview.Lifecycle.Tidy.{Kept, live_run-Kept}
use nasa_cpp.Examples.Data.{plain, outer, two, good}

-- One click on the outer button, and then the timer, the answer and the second timer.
abbrev one_click : List (Action ℤ)
one_click = click false (some outer) true ∷ []

abbrev rest : List (Action ℤ)
rest = timeout 0 ∷ answer 0 ∷ timeout 1 ∷ []

rest-IsCalm : IsCalm (session fresh one_click).0 rest
unfolding session act on_click fresh lookup_timer delete_timer press fire reply next_value
rest-IsCalm = ((send "4204" (pos 15), refl), (("4204", refl), ((forget "4204" 0, refl), tt)))

pending_fades_example :
    let c = (session fresh one_click).0 in
    let c' = (session c rest).0 in
    (waits rest + steps_left c' ≤ steps_left c)
    × ((lookup "4204" c'.pending ≡ none) ⊎ ((a : Action ℤ) × CanHappen c' a))
pending_fades_example = pending_fades one_click rest "4204" rest-IsCalm

abbrev none_inherited : List ℕ → Bool
none_inherited name = false

abbrev at_home : Moment ℤ
at_home = record { now = pos 0; fragment = [] }

abbrev first_hour : List (Moment ℤ × Happening ℤ)
first_hour =
    (at_home, socket opened)
    ∷ (at_home, hash_change)
    ∷ (at_home, message (Message.snapshot two good))
    ∷ (at_home, open_panel "4204" (pos 100))
    ∷ []

view_from_first_snapshot_example :
    let (pg, calls) = run_page plain none_inherited (start good) first_hour in
    InPhase pg.link.store.ready pg.app calls
view_from_first_snapshot_example = view_from_first_snapshot plain none_inherited good first_hour

run_page-TellsOutage_example :
    let pg = (run_page plain none_inherited (start good) first_hour).0 in
    TellsOutage pg.label pg.link.store.ws_connected pg.link.store.status.mqtt
run_page-TellsOutage_example = run_page-TellsOutage plain none_inherited good first_hour

two-Distinct : Distinct two
two-Distinct = ((ground (arith, eq_iff "4204" "4238"), tt), (tt, tt))

-- The panel is open for the outdoor sensor.
abbrev looking : Screen ℤ
looking = (run_page plain none_inherited (start good) first_hour).0

looking-IsCoherent : IsCoherent plain looking.link.store []
unfolding run_page start happen on_socket emit_all listener unfilled open_panel_of by_id
    App.on_event App.route refresh_drawer on_message set_entities add_entities
looking-IsCoherent =
    on_message-IsCoherent plain (record (unfilled good) { ws_connected = true })
      (Message.snapshot two good) two-Distinct (record { ids = tt; names = tt })

abbrev warmer : List (Moment ℤ × Happening ℤ)
warmer = (at_home, message (Message.state "4204" (some (pos 7)) none (pos 100))) ∷ []

open_panel_current_example :
    let pg = (run_page plain none_inherited looking warmer).0 in
    PanelOk pg.drawer.current_id pg.now_shown (by_id pg.link.store)
unfolding run_page start happen on_socket emit_all listener unfilled open_panel_of by_id on_message
    set_entities add_entities open_entity
open_panel_current_example =
    open_panel_current plain none_inherited looking warmer (refl, tt) looking-IsCoherent refl

abbrev later_outer : Entity ℤ
later_outer = record outer { value = some (pos 9) }

snapshot_leaves_panel_example :
    let pg =
      (happen plain none_inherited looking at_home
        (message (Message.snapshot (later_outer ∷ []) good))).0 in
    (pg.drawer.current_id ≡ some "4204")
    × (pg.now_shown ≡ some outer)
    × (by_id pg.link.store "4204" ≡ some later_outer)
    × (pg.now_shown ≢ by_id pg.link.store "4204")
unfolding run_page start happen on_socket emit_all listener unfilled open_panel_of by_id on_message
    set_entities add_entities open_entity
snapshot_leaves_panel_example =
    snapshot_leaves_panel plain none_inherited looking at_home (later_outer ∷ []) good "4204" outer
      later_outer refl refl refl (λ e. cc)

-- The overview before it is first shown.
abbrev nothing_live : Live
nothing_live = record {
  chart = none;
  charts = 0;
  timers = [];
  intervals = [];
  raf = 0;
  frames = [];
  handles = 0;
  waiting = 0;
  waiting_today = 0;
}

-- It is shown, updated twice, left while requests are under way, and shown again before the answers.
abbrev two_visits : List LiveEvent
two_visits =
    mount true true
    ∷ update
    ∷ update
    ∷ frame 3
    ∷ frame 4
    ∷ answered true
    ∷ interval 0 true
    ∷ update
    ∷ unmount
    ∷ frame 5
    ∷ today_answered true
    ∷ rerender true
    ∷ mount false false
    ∷ answered true
    ∷ unmount
    ∷ []

live_run-Kept_example : Kept false nothing_live (live_run nothing_live two_visits)
live_run-Kept_example =
    live_run-Kept false nothing_live two_visits (refl, refl, refl)
      (
        refl,
        (
          refl,
          (
            refl,
            (tt, (tt, (tt, (tt, (refl, (refl, (tt, (tt, (tt, (refl, (tt, (refl, tt)))))))))))),
          ),
        ),
      )
