-- ===== src/Controls/Limits.antt =====
-- The limits of a stepper (web/nasa_web/static/js/controls.js).
use nasa_cpp.Base.{
  ℕ, ◌≡◌, inl, inr, Bool, true, false, Option, none, some, List, [], ◌∷◌, String, lookup, arith,
  All, All-append, Option-cases,
}
use nasa_cpp.Base.Number.{Number, IsOrdered, ◌≼◌, max_num, min_num}
use nasa_cpp.Entity.{Entity}
use nasa_cpp.Controls.{
  Pending, Task, send, forget, Panel, next_value, pending_value, cleared, on_click, fire, reply,
  confirm_state,
}
use nasa_cpp.Controls.Timers.{lookup_timer, delete_timer, delete_timer-All, lookup_timer-All}
use nasa_cpp.Controls.Burst.{Action, click, timeout, answer, report, fresh, act, session}

module _ {R : Type 0} ⦃num : Number R⦄ (laws : IsOrdered R) where
  open laws use {le_refl, le_total, lt-eq-not-le}

  clamped :
      (lo hi x : R) → lo ≼ hi → (lo ≼ min_num hi (max_num lo x)) × (min_num hi (max_num lo x) ≼ hi)
  clamped lo hi x h = ground (
    arith,
    le_refl lo,
    le_refl hi,
    lt-eq-not-le lo x,
    lt-eq-not-le x hi,
    lt-eq-not-le lo hi,
    le_total lo x,
    le_total x hi,
  )

  next_value_bounds :
      (v : Option R) (e : Entity R) (up : Bool) (lo hi : R)
      → e.min ≡ some lo
      → e.max ≡ some hi
      → lo ≼ hi
      → (lo ≼ next_value v e up) × (next_value v e up ≼ hi)
  unfolding next_value
  next_value_bounds v e up lo hi low high h = rw (low, high) (clamped lo hi _ h)

-- The limits that the store gives for every entity by its id.
module _ {R : Type 0} ⦃num : Number R⦄ (lo hi : String → R) where
  abbrev pub Within : String × R → Type 0
  Within (id, v) = (lo id ≼ v) × (v ≼ hi id)

  -- Clicks are on entities that have their limits.
  abbrev pub HasLimits : Action R → Type 0
  HasLimits (click disabled (some e) up) =
      (e.min ≡ some (lo e.id)) × (e.max ≡ some (hi e.id)) × (lo e.id ≼ hi e.id)
  HasLimits _ = Unit

  abbrev TaskOk : Task R → Type 0
  TaskOk (send id v) = Within (id, v)
  TaskOk (forget id t) = Unit

  abbrev TimersOk : List (ℕ × Task R) → Type 0
  TimersOk ts = All (λ (a : ℕ × Task R). TaskOk a.1) ts

  delete_timer-TimersOk :
      (t : ℕ) (ts : List (ℕ × Task R)) → TimersOk ts → TimersOk (delete_timer t ts)
  delete_timer-TimersOk t ts h =
      delete_timer-All (λ (a : ℕ × Task R). TaskOk a.1) (λ (a : ℕ × Task R). TaskOk a.1) t ts
        (λ a ne p. p) h

  cleared-TimersOk :
      (p : Option (Pending R)) (ts : List (ℕ × Task R)) → TimersOk ts → TimersOk (cleared p ts)
  cleared-TimersOk none ts h = h
  cleared-TimersOk (some p) ts h = delete_timer-TimersOk p.timer ts h

  confirm_state-timers : (c : Panel R) (e : Entity R) → (confirm_state c e).timers ≡ c.timers
  unfolding confirm_state
  confirm_state-timers c e = ground arith

  reply-TimersOk : (c : Panel R) (t : ℕ) → TimersOk c.timers → TimersOk (reply c t).timers
  unfolding reply
  reply-TimersOk c t h = elim (Option-cases (lookup_timer t c.awaiting)) [
    | inl gone ↦ rw (gone, reply) h
    | inr (id, found) ↦ rw (found, reply) (tt, h)
  ]

  fire-TimersOk :
      (c : Panel R) (t : ℕ)
      → TimersOk c.timers
      → TimersOk (fire c t).0.timers × All Within (fire c t).1
  unfolding fire
  fire-TimersOk c t h = elim (Option-cases (lookup_timer t c.timers)) [
    | inl gone ↦ rw (gone, fire) (h, tt)
    | inr (send id v, found) ↦
        let sound = lookup_timer-All (λ (a : ℕ × Task R). TaskOk a.1) t c.timers h found in
        rw (found, fire) (delete_timer-TimersOk t c.timers h, (sound, tt))
    | inr (forget id u, found) ↦ rw (found, fire) (delete_timer-TimersOk t c.timers h, tt)
  ]

  module _ (laws : IsOrdered R) where
    on_click-TimersOk :
        (c : Panel R) (disabled : Bool) (e : Option (Entity R)) (up : Bool)
        → HasLimits (click disabled e up)
        → TimersOk c.timers
        → TimersOk (on_click c disabled e up).timers
    unfolding on_click
    on_click-TimersOk c disabled none up l h = h
    on_click-TimersOk c true (some e) up l h = h
    on_click-TimersOk c false (some e) up (low, high, le) h =
        let prev = lookup e.id c.pending in
        (
          next_value_bounds laws (pending_value prev) e up (lo e.id) (hi e.id) low high le,
          cleared-TimersOk prev c.timers h,
        )

    session-TimersOk :
        (c : Panel R) (as' : List (Action R))
        → All HasLimits as'
        → TimersOk c.timers
        → All Within (session c as').1
    unfolding session act
    session-TimersOk c [] l h = tt
    session-TimersOk c (click disabled e up ∷ as') (l, ls) h =
        session-TimersOk (on_click c disabled e up) as' ls (on_click-TimersOk c disabled e up l h)
    session-TimersOk c (timeout t ∷ as') (l, ls) h =
        let (kept, sent) = fire-TimersOk c t h in
        All-append Within (fire c t).1 (session (fire c t).0 as').1 sent
          (session-TimersOk (fire c t).0 as' ls kept)
    session-TimersOk c (answer t ∷ as') (l, ls) h =
        session-TimersOk (reply c t) as' ls (reply-TimersOk c t h)
    session-TimersOk c (report e ∷ as') (l, ls) h =
        session-TimersOk (confirm_state c e) as' ls (rw (confirm_state-timers c e) h)

    -- In every session of clicks, timeouts, answers and state messages, in whatever order, each command
    -- that is sent lies within the limits of its entity.
    pub session-Within :
        (as' : List (Action R)) → All HasLimits as' → All Within (session fresh as').1
    unfolding fresh
    session-Within as' l = session-TimersOk fresh as' l tt
