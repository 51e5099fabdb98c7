-- ===== src/Controls.antt =====
-- web/nasa_web/static/js/controls.js: the widgets of the writable entities, and the stepper that
-- waits for the last of several clicks before it sends a command.
pub mod Timers
pub mod Debounce
pub mod Burst
pub mod Widget
pub mod Limits
pub mod Fading
pub mod Settling
pub mod Races
pub mod Switch
use nasa_cpp.Base.{
  ℕ, ◌+◌, Bool, true, false, Option, none, some, List, [], ◌∷◌, ◌++◌, String, JsMap, lookup, insert,
  delete, or_else, if◌then◌else◌, ◌==◌, not,
}
use nasa_cpp.Base.Number.{Number, ◌⊕◌, ◌⊖◌, ◌⊗◌, ◌⊘◌, max_num, min_num, abs_num}
use nasa_cpp.Entity.{Entity}
use nasa_cpp.Controls.Timers.{lookup_timer, delete_timer}

-- An entry of `pendingNumbers`.
pub record Pending (R : Type 0) : Type 0 where
  pub value : R
  pub timer : ℕ

-- What a timeout runs: the command after 700 ms, and the end of the pending marker 15 s after the
-- reply to the command of timer `t`.
pub data Task (R : Type 0) : Type 0 where
  send : String → R → Task R
  forget : String → ℕ → Task R

pub record Panel (R : Type 0) : Type 0 where
  pub pending : JsMap (Pending R)
  pub timers : List (ℕ × Task R)  -- timeouts that have not run and are not cleared
  pub awaiting : List (ℕ × String)  -- `await send(e, next)`, by the timer that started it
  pub next_timer : ℕ  -- `setTimeout` has given out the identifiers below it

module _ {R : Type 0} ⦃num : Number R⦄ where
  -- `e.step || 1`
  abbrev pub step_of : Entity R → R
  step_of e = elim e.step [
    | none ↦ num.of_nat 1
    | some s ↦ if num.same s (num.of_nat 0) then num.of_nat 1 else s
  ]

  -- `step * +btn.dataset.step`, which is 1 or -1
  abbrev signed_step : Entity R → Bool → R
  signed_step e up =
      if up then step_of e ⊗ num.of_nat 1 else step_of e ⊗ (num.of_nat 0 ⊖ num.of_nat 1)

  abbrev pub pending_value : Option (Pending R) → Option R
  pending_value none = none
  pending_value (some p) = some p.value

  -- `pending ?? e.value ?? e.min ?? 0`
  abbrev shown_value : Option R → Entity R → R
  shown_value p e = or_else p (or_else e.value (or_else e.min (num.of_nat 0)))

  abbrev at_least_min : Option R → R → R
  at_least_min none x = x
  at_least_min (some lo) x = max_num lo x

  abbrev at_most_max : Option R → R → R
  at_most_max none x = x
  at_most_max (some hi) x = min_num hi x

  -- The value that a click on a stepper aims at, from the pending value.
  unfoldable pub next_value : Option R → Entity R → Bool → R
  next_value p e up =
      let current = shown_value p e in
      let rounded = num.round ((current ⊕ signed_step e up) ⊗ num.of_nat 100) ⊘ num.of_nat 100 in
      at_most_max e.max (at_least_min e.min rounded)

  -- `if (prev) clearTimeout(prev.timer)`
  abbrev pub cleared : Option (Pending R) → List (ℕ × Task R) → List (ℕ × Task R)
  cleared none timers = timers
  cleared (some p) timers = delete_timer p.timer timers

  -- A click on a stepper's button, past the guards.
  unfoldable pub press : Panel R → Entity R → Bool → Panel R
  unfolding next_value
  press c e up =
      let prev = lookup e.id c.pending in
      let next = next_value (pending_value prev) e up in
      record {
        pending = insert e.id (record { value = next; timer = c.next_timer }) c.pending;
        timers = (c.next_timer, send e.id next) ∷ cleared prev c.timers;
        awaiting = c.awaiting;
        next_timer = c.next_timer + 1;
      }

  -- The listener for clicks on a stepper: `disabled` is the button's, and `e` what
  -- `store.entities` holds under the button's id.
  unfoldable pub on_click : Panel R → Bool → Option (Entity R) → Bool → Panel R
  unfolding press
  on_click c disabled none up = c
  on_click c disabled (some e) up = if disabled then c else press c e up

  -- `if (pendingNumbers.get(id)?.timer === timer) pendingNumbers.delete(id)`
  abbrev forget_pending : String → ℕ → JsMap (Pending R) → JsMap (Pending R)
  forget_pending id t m = elim (lookup id m) [
    | none ↦ m
    | some p ↦ if p.timer == t then delete id m else m
  ]

  -- A timeout runs: the new state, and the commands given to `api.command`.
  unfoldable pub fire : Panel R → ℕ → Panel R × List (String × R)
  fire c t = elim (lookup_timer t c.timers) [
    | none ↦ (c, [])
    | some (send id v) ↦ (
      record c { timers = delete_timer t c.timers; awaiting = (t, id) ∷ c.awaiting },
      (id, v) ∷ [],
    )
    | some (forget id t') ↦ (
      record c { timers = delete_timer t c.timers; pending = forget_pending id t' c.pending },
      [],
    )
  ]

  -- The command of timer `t` has been answered, or has failed: the second `setTimeout`.
  unfoldable pub reply : Panel R → ℕ → Panel R
  reply c t = elim (lookup_timer t c.awaiting) [
    | none ↦ c
    | some id ↦ record c {
      timers = (c.next_timer, forget id t) ∷ c.timers;
      awaiting = delete_timer t c.awaiting;
      next_timer = c.next_timer + 1;
    }
  ]

  abbrev pub has_arrived : Option R → R → Bool
  has_arrived none v = false
  has_arrived (some x) v = num.lt (abs_num (x ⊖ v)) (num.decimal 1 6)

  -- `confirmState(e)`
  unfoldable pub confirm_state : Panel R → Entity R → Panel R
  confirm_state c e = elim (lookup e.id c.pending) [
    | none ↦ c
    | some p ↦
        if has_arrived e.value p.value then record c { pending = delete e.id c.pending } else c
  ]
