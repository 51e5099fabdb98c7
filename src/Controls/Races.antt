-- ===== src/Controls/Races.antt =====
-- Clicks and state messages that race (web/nasa_web/static/js/controls.js).
use nasa_cpp.Base.{◌≡◌, ◌≢◌, Bool, true, none, some, lookup, delete, arith, eq_refl, lookup-delete}
use nasa_cpp.Base.Number.{Number}
use nasa_cpp.Entity.{Entity}
use nasa_cpp.Controls.Timers.{lookup_timer, lookup-cons_timer}
use nasa_cpp.Controls.{Pending, send, Panel, press, next_value, confirm_state, has_arrived}
use nasa_cpp.Controls.Debounce.{IsDebounced}

module _ {R : Type 0} ⦃num : Number R⦄ where
  confirm_state_arrived :
      (c : Panel R) (e : Entity R) (p : Pending R)
      → lookup e.id c.pending ≡ some p
      → has_arrived e.value p.value ≡ true
      → confirm_state c e ≡ record c { pending = delete e.id c.pending }
  unfolding confirm_state
  confirm_state_arrived c e p shown here = ground arith

  -- If the value that a stepper waits to send arrives from elsewhere before the timer runs, the
  -- pending marker goes and the timer stays: the next click sets a second timer for that entity.
  pub confirm_state_splits :
      (c : Panel R) (e : Entity R) (p : Pending R) (up : Bool)
      → IsDebounced c
      → lookup e.id c.pending ≡ some p
      → lookup_timer p.timer c.timers ≡ some (send e.id p.value)
      → has_arrived e.value p.value ≡ true
      → let c' = press (confirm_state c e) e up in
        (lookup_timer p.timer c'.timers ≡ some (send e.id p.value))
        × (lookup_timer c.next_timer c'.timers ≡ some (send e.id (next_value none e up)))
        × (p.timer ≢ c.next_timer)
  unfolding press
  confirm_state_splits c e p up d shown armed here =
      let gone : lookup e.id (delete e.id c.pending) ≡ none = simp (lookup-delete, eq_refl) in
      let older = d.markers e.id p shown in
      rw (confirm_state_arrived c e p shown here, gone)
        (ground (
          arith,
          lookup-cons_timer c.next_timer p.timer (send e.id (next_value none e up)) c.timers,
          lookup-cons_timer c.next_timer c.next_timer (send e.id (next_value none e up)) c.timers,
        ))
