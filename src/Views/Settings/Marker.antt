-- ===== src/Views/Settings/Marker.antt =====
-- The value of one setting on the page of web/nasa_web/static/js/views/settings.js over time: state
-- messages, and the timers and answers of its stepper.
use nasa_cpp.Base.{
  ℕ, ◌≡◌, Bool, true, false, none, some, List, [], ◌∷◌, String, arith, str_eq, eq_refl,
  if◌then◌else◌, ◌==◌, lookup,
}
use nasa_cpp.Base.Number.{Number}
use nasa_cpp.Entity.{Entity, Status}
use nasa_cpp.Controls.{Panel, Pending, send, forget, fire, reply, confirm_state, has_arrived}
use nasa_cpp.Controls.Timers.{lookup_timer}
use nasa_cpp.Controls.Widget.{stepper}
use nasa_cpp.Views.Settings.Items.{
  Value, control, setting_value, update_state, Refresh, nothing, everything, one_value,
}

-- The slot of an entity, with the timers behind its stepper.
pub record ValueSlot (R : Type 0) : Type 0 where
  pub entity : Entity R
  pub panel : Panel R
  pub shown : Value

pub data SlotEvent (R : Type 0) : Type 0 where
  message : Entity R → SlotEvent R
  timeout answer : ℕ → SlotEvent R

-- `slot.querySelector(".pending")`
abbrev pub is_marked : Value → Bool
is_marked (control (stepper pending out down up)) = pending
is_marked _ = false

module _ {R : Type 0} ⦃num : Number R⦄ where
  -- `pendingNumbers.get(e.id)?.timer === timer`, of the timer that runs: it renders the page again.
  unfoldable pub renders_again : Panel R → ℕ → Bool
  renders_again c t = elim (lookup_timer t c.timers) [
    | none ↦ false
    | some (send id v) ↦ false
    | some (forget id u) ↦ elim (lookup id c.pending) [ none ↦ false | some p ↦ p.timer == u ]
  ]

  module _ (locale : R → ℕ → String) (editing : Bool) (st : Status R) where
    abbrev placed : String → Value → Refresh → Value
    placed id old nothing = old
    placed id old everything = old
    placed id old (one_value other v) = if str_eq other id then v else old

    unfoldable pub slot_step : ValueSlot R → SlotEvent R → ValueSlot R
    unfolding renders_again
    slot_step s (message e) =
        let mine = str_eq e.id s.entity.id in
        let (c, refresh) = update_state locale editing st s.panel e mine (is_marked s.shown) in
        record {
          entity = if mine then e else s.entity;
          panel = c;
          shown = placed s.entity.id s.shown refresh;
        }
    slot_step s (timeout t) =
        let c = (fire s.panel t).0 in
        record s {
          panel = c;
          shown =
              if renders_again s.panel t
              then setting_value locale editing st c s.entity
              else s.shown;
        }
    slot_step s (answer t) = record s { panel = reply s.panel t }

    unfoldable pub slot_run : ValueSlot R → List (SlotEvent R) → ValueSlot R
    slot_run s [] = s
    slot_run s (e ∷ es) = slot_run (slot_step s e) es

    -- The page shows a marker where there is none.
    record IsStuck (v : Value) (s : ValueSlot R) : Type 0 where
      marked : is_marked s.shown ≡ true
      same : s.shown ≡ v
      gone : s.panel.pending ≡ []

    step-IsStuck :
        (v : Value) (s : ValueSlot R) (e : SlotEvent R) → IsStuck v s → IsStuck v (slot_step s e)
    unfolding slot_step update_state confirm_state fire reply
    step-IsStuck v s (message e) h = record {
      marked = ground (arith, h.marked, h.same, h.gone);
      same = ground (arith, h.marked, h.same, h.gone);
      gone = ground (arith, h.marked, h.same, h.gone);
    }
    step-IsStuck v s (timeout t) h = record {
      marked = ground (arith, h.marked, h.same, h.gone);
      same = ground (arith, h.marked, h.same, h.gone);
      gone = ground (arith, h.marked, h.same, h.gone);
    }
    step-IsStuck v s (answer t) h = record {
      marked = h.marked;
      same = h.same;
      gone = ground (arith, h.gone);
    }

    run-IsStuck :
        (v : Value) (s : ValueSlot R) (es : List (SlotEvent R))
        → IsStuck v s
        → IsStuck v (slot_run s es)
    unfolding slot_run
    run-IsStuck v s [] h = h
    run-IsStuck v s (e ∷ es) h = run-IsStuck v (slot_step s e) es (step-IsStuck v s e h)

    -- Where the only pending marker is that of a setting whose stepper is shown as pending, and the value
    -- that it waits for arrives, the marker goes and the stepper goes on being shown as pending with the
    -- old markup: no state message, no timeout and no answer after that draws it again.
    pub confirmed_stays_marked :
        (s : ValueSlot R) (p : Pending R) (e : Entity R) (later : List (SlotEvent R))
        → s.panel.pending ≡ (s.entity.id, p) ∷ []
        → is_marked s.shown ≡ true
        → e.id ≡ s.entity.id
        → has_arrived e.value p.value ≡ true
        → let s' = slot_run (slot_step s (message e)) later in
          (s'.panel.pending ≡ []) × (s'.shown ≡ s.shown) × (is_marked s'.shown ≡ true)
    unfolding slot_step update_state confirm_state
    confirmed_stays_marked s p e later waits marked mine here =
        let after = run-IsStuck s.shown (slot_step s (message e)) later (record {
          marked = ground (arith, marked);
          same = ground (arith, marked);
          gone = ground (arith, waits, mine, here, eq_refl e.id);
        }) in
        (after.gone, after.same, after.marked)
