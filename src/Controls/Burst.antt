-- ===== src/Controls/Burst.antt =====
-- A whole session of the steppers, and a burst of clicks on one of them.
use nasa_cpp.Base.{
  ℕ, ◌≡◌, ◌↔◌, refl, sym, ◌∙◌, Bool, true, false, Option, none, some, List, [], ◌∷◌, ◌++◌, String,
  lookup, arith, eq_refl, lookup-insert,
}
use nasa_cpp.Base.Number.{Number}
use nasa_cpp.Entity.{Entity}
use nasa_cpp.Controls.Timers.{lookup_timer, lookup-cons_timer}
use nasa_cpp.Controls.{
  Pending, send, Panel, cleared, press, on_click, fire, reply, confirm_state, next_value,
  pending_value,
}
use nasa_cpp.Controls.Debounce.{
  IsDebounced, press-IsDebounced, fire-IsDebounced, reply-IsDebounced, one_command,
}

-- What happens to the steppers of a page: a click on a button (whether it is disabled, what the store
-- holds under its id, and whether it is the upper one), a timeout, the answer to a command, and a state
-- message for an entity.
pub data Action (R : Type 0) : Type 0 where
  click : Bool → Option (Entity R) → Bool → Action R
  timeout answer : ℕ → Action R
  report : Entity R → Action R

-- No state message arrives.
abbrev pub NoReport : {R : Type 0} → List (Action R) → Type 0
NoReport [] = Unit
NoReport (report e ∷ as') = ⊥
NoReport (a ∷ as') = NoReport as'

unfoldable pub fresh : {R : Type 0} → Panel R
fresh = record { pending = []; timers = []; awaiting = []; next_timer = 0 }

module _ {R : Type 0} ⦃num : Number R⦄ where
  unfoldable pub act : Panel R → Action R → Panel R × List (String × R)
  act c (click disabled e up) = (on_click c disabled e up, [])
  act c (timeout t) = fire c t
  act c (answer t) = (reply c t, [])
  act c (report e) = (confirm_state c e, [])

  -- The panel after some actions, and all commands sent.
  unfoldable pub session : Panel R → List (Action R) → Panel R × List (String × R)
  session c [] = (c, [])
  session c (a ∷ as') =
      let (c', sent) = act c a in let (c'', later) = session c' as' in (c'', sent ++ later)

  on_click-IsDebounced :
      (c : Panel R) (disabled : Bool) (e : Option (Entity R)) (up : Bool)
      → IsDebounced c
      → IsDebounced (on_click c disabled e up)
  unfolding on_click
  on_click-IsDebounced c disabled none up d = d
  on_click-IsDebounced c true (some e) up d = d
  on_click-IsDebounced c false (some e) up d = press-IsDebounced c d e up

  pub session-IsDebounced :
      (c : Panel R) (as' : List (Action R))
      → NoReport as'
      → IsDebounced c
      → IsDebounced (session c as').0
  unfolding session act
  session-IsDebounced c [] q d = d
  session-IsDebounced c (click disabled e up ∷ as') q d =
      session-IsDebounced (on_click c disabled e up) as' q (on_click-IsDebounced c disabled e up d)
  session-IsDebounced c (timeout t ∷ as') q d =
      session-IsDebounced (fire c t).0 as' q (fire-IsDebounced c d t)
  session-IsDebounced c (answer t ∷ as') q d =
      session-IsDebounced (reply c t) as' q (reply-IsDebounced c d t)
  session-IsDebounced c (report e ∷ as') q d = absurd q

  pub fresh-IsDebounced : IsDebounced (fresh {R = R})
  unfolding fresh lookup_timer
  fresh-IsDebounced = record {
    sends = λ t id v h. cc;
    forgets = λ t id u h. cc;
    replies = λ t id h. cc;
    markers = λ id p h. cc;
  }

  -- In every session of clicks, timeouts and answers, as long as no state message arrives, there is at
  -- most one timer that will send to an entity, and what it will send is the value that the stepper
  -- shows.
  pub session_one_command :
      (as' : List (Action R)) (t t' : ℕ) (id : String) (v v' : R)
      → NoReport as'
      → lookup_timer t (session fresh as').0.timers ≡ some (send id v)
      → lookup_timer t' (session fresh as').0.timers ≡ some (send id v')
      → (t ≡ t') × (v ≡ v') × (pending_value (lookup id (session fresh as').0.pending) ≡ some v)
  session_one_command as' t t' id v v' q h k =
      let d = session-IsDebounced fresh as' q fresh-IsDebounced in
      let (same_timer, same_value) = one_command _ t t' id v v' d h k in
      (same_timer, same_value, rw (d.sends t id v h).1)

  -- Clicks on one stepper, in a row.
  unfoldable pub presses : Panel R → Entity R → List Bool → Panel R
  presses c e [] = c
  presses c e (up ∷ ups) = presses (press c e up) e ups

  -- The value that they aim at.
  unfoldable pub aim : Option R → Entity R → List Bool → Option R
  aim v e [] = v
  aim v e (up ∷ ups) = aim (some (next_value v e up)) e ups

  pending-press :
      (c : Panel R) (e : Entity R) (up : Bool)
      → lookup e.id (press c e up).pending
        ≡ some (record {
          value = next_value (pending_value (lookup e.id c.pending)) e up;
          timer = c.next_timer;
        })
  unfolding press
  pending-press c e up = simp (lookup-insert, eq_refl)

  pending-presses :
      (c : Panel R) (e : Entity R) (ups : List Bool)
      → pending_value (lookup e.id (presses c e ups).pending)
        ≡ aim (pending_value (lookup e.id c.pending)) e ups
  unfolding presses aim
  pending-presses c e [] = refl
  pending-presses c e (up ∷ ups) =
      pending-presses (press c e up) e ups ∙ rw (pending-press c e up) refl

  -- After the last click of a burst the entity has a timer that will send.
  Armed : Panel R → Entity R → Type 0
  Armed c e =
      (p : Pending R) × (lookup e.id c.pending ≡ some p)
      × (lookup_timer p.timer c.timers ≡ some (send e.id p.value))

  press-Armed : (c : Panel R) (e : Entity R) (up : Bool) → Armed (press c e up) e
  unfolding Armed press
  press-Armed c e up = (
    record {
      value = next_value (pending_value (lookup e.id c.pending)) e up;
      timer = c.next_timer;
    },
    simp (lookup-insert, eq_refl),
    ground (
      arith,
      lookup-cons_timer c.next_timer c.next_timer
          (send e.id (next_value (pending_value (lookup e.id c.pending)) e up))
          (cleared (lookup e.id c.pending) c.timers),
    ),
  )

  presses-Armed :
      (c : Panel R) (e : Entity R) (ups : List Bool) → Armed c e → Armed (presses c e ups) e
  unfolding presses
  presses-Armed c e [] a = a
  presses-Armed c e (up ∷ ups) a = presses-Armed (press c e up) e ups (press-Armed c e up)

  presses-IsDebounced :
      (c : Panel R) (e : Entity R) (ups : List Bool) → IsDebounced c → IsDebounced (presses c e ups)
  unfolding presses
  presses-IsDebounced c e [] d = d
  presses-IsDebounced c e (up ∷ ups) d =
      presses-IsDebounced (press c e up) e ups (press-IsDebounced c d e up)

  -- From a debounced panel, a burst of one or more clicks on one stepper leaves exactly one timer that
  -- will send to the entity, and its command is the value that the clicks, taken one after the other,
  -- aim at.
  pub burst_one_command :
      (c : Panel R) (e : Entity R) (up : Bool) (ups : List Bool) (u : ℕ) (w : R)
      → IsDebounced c
      → (t : ℕ) × (v : R) × (lookup_timer t (presses c e (up ∷ ups)).timers ≡ some (send e.id v))
        × (aim (pending_value (lookup e.id c.pending)) e (up ∷ ups) ≡ some v)
        × ((lookup_timer u (presses c e (up ∷ ups)).timers ≡ some (send e.id w))
            ↔ ((u ≡ t) × (w ≡ v)))
  unfolding presses Armed
  burst_one_command c e up ups u w d =
      let (p, shown, armed) = presses-Armed (press c e up) e ups (press-Armed c e up) in
      let after = presses-IsDebounced (press c e up) e ups (press-IsDebounced c d e up) in
      (
        p.timer,
        p.value,
        armed,
        sym (pending-presses c e (up ∷ ups)) ∙ rw shown refl,
        ground (arith, one_command _ u p.timer e.id w p.value after),
      )
