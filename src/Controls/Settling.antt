-- ===== src/Controls/Settling.antt =====
-- The steppers of web/nasa_web/static/js/controls.js once the user has stopped.
use nasa_cpp.Base.{
  ℕ, ◌+◌, ◌*◌, ◌≤◌, ◌≡◌, ◌⊎◌, inl, inr, true, false, none, some, List, [], ◌∷◌, String, lookup,
  length, arith, Option-cases,
}
use nasa_cpp.Base.Number.{Number}
use nasa_cpp.Entity.{Entity}
use nasa_cpp.Controls.Timers.{lookup_timer, delete_timer}
use nasa_cpp.Controls.{Task, send, forget, Panel, on_click, fire, reply, confirm_state}
use nasa_cpp.Controls.Fading.{
  IsFading, press-IsFading, fire-IsFading, reply-IsFading, confirm_state-IsFading,
}
use nasa_cpp.Controls.Burst.{Action, click, timeout, answer, report, fresh, act, session}

-- How many timeouts and answers a timer leads to.
abbrev task_steps : {R : Type 0} → Task R → ℕ
task_steps (send id v) = 3
task_steps (forget id t) = 1

abbrev timers_steps : {R : Type 0} → List (ℕ × Task R) → ℕ
timers_steps [] = 0
timers_steps ((t, a) ∷ ts) = task_steps a + timers_steps ts

-- The timeouts and answers that are still to come.
abbrev pub steps_left : {R : Type 0} → Panel R → ℕ
steps_left c = timers_steps c.timers + 2 * length c.awaiting

-- A timer that is set runs, or a command that was sent is answered.
abbrev pub CanHappen : {R : Type 0} → Panel R → Action R → Type 0
CanHappen c (click disabled e up) = ⊥
CanHappen c (timeout t) = (a : Task _) × (lookup_timer t c.timers ≡ some a)
CanHappen c (answer t) = (id : String) × (lookup_timer t c.awaiting ≡ some id)
CanHappen c (report e) = ⊥

-- The actions but the state messages, counted.
abbrev pub waits : {R : Type 0} → List (Action R) → ℕ
waits [] = 0
waits (report e ∷ as') = waits as'
waits (a ∷ as') = 1 + waits as'

delete_timer-steps :
    {R : Type 0} (t : ℕ) (ts : List (ℕ × Task R))
    → timers_steps (delete_timer t ts) ≤ timers_steps ts
unfolding delete_timer
delete_timer-steps t [] = omega arith
delete_timer-steps t ((i, a) ∷ ts) = ground (arith, delete_timer-steps t ts)

run_timer-steps :
    {R : Type 0} (t : ℕ) (ts : List (ℕ × Task R)) (a : Task R)
    → lookup_timer t ts ≡ some a
    → task_steps a + timers_steps (delete_timer t ts) ≤ timers_steps ts
unfolding delete_timer lookup_timer
run_timer-steps t [] a h = cc
run_timer-steps t ((i, b) ∷ ts) a h =
    ground (arith, delete_timer-steps t ts, run_timer-steps t ts a)

delete_timer-length :
    {A : Type 0} (t : ℕ) (ts : List (ℕ × A)) → length (delete_timer t ts) ≤ length ts
unfolding delete_timer
delete_timer-length t [] = omega arith
delete_timer-length t ((i, a) ∷ ts) = ground (arith, delete_timer-length t ts)

answered-length :
    {A : Type 0} (t : ℕ) (ts : List (ℕ × A)) (a : A)
    → lookup_timer t ts ≡ some a
    → 1 + length (delete_timer t ts) ≤ length ts
unfolding delete_timer lookup_timer
answered-length t [] a h = cc
answered-length t ((i, b) ∷ ts) a h =
    ground (arith, delete_timer-length t ts, answered-length t ts a)

module _ {R : Type 0} ⦃num : Number R⦄ where
  -- No click; what happens is a timer that is set, the answer to a command that was sent, or a state
  -- message.
  abbrev pub IsCalm : Panel R → List (Action R) → Type 0
  IsCalm c [] = Unit
  IsCalm c (report e ∷ as') = IsCalm (act c (report e)).0 as'
  IsCalm c (a ∷ as') = CanHappen c a × IsCalm (act c a).0 as'

  act-IsFading : (c : Panel R) (a : Action R) → IsFading c → IsFading (act c a).0
  unfolding act on_click
  act-IsFading c (click disabled none up) f = f
  act-IsFading c (click true (some e) up) f = f
  act-IsFading c (click false (some e) up) f = press-IsFading c e up f
  act-IsFading c (timeout t) f = fire-IsFading c t f
  act-IsFading c (answer t) f = reply-IsFading c t f
  act-IsFading c (report e) f = confirm_state-IsFading c e f

  session-IsFading : (c : Panel R) (as' : List (Action R)) → IsFading c → IsFading (session c as').0
  unfolding session
  session-IsFading c [] f = f
  session-IsFading c (a ∷ as') f = session-IsFading (act c a).0 as' (act-IsFading c a f)

  fresh-IsFading : IsFading (fresh {R = R})
  unfolding fresh lookup_timer
  fresh-IsFading = record { known = λ t a h. cc; ends = λ id p h. cc }

  report-steps : (c : Panel R) (e : Entity R) → steps_left (confirm_state c e) ≡ steps_left c
  unfolding confirm_state
  report-steps c e = ground arith

  timeout-steps :
      (c : Panel R) (t : ℕ) → CanHappen c (timeout t) → 1 + steps_left (fire c t).0 ≤ steps_left c
  unfolding fire
  timeout-steps c t (send id v, h) =
      rw (h, fire) (ground (arith, run_timer-steps t c.timers (send id v) h))
  timeout-steps c t (forget id u, h) =
      rw (h, fire) (ground (arith, run_timer-steps t c.timers (forget id u) h))

  answer-steps :
      (c : Panel R) (t : ℕ) → CanHappen c (answer t) → 1 + steps_left (reply c t) ≤ steps_left c
  unfolding reply
  answer-steps c t (id, h) = rw (h, reply) (ground (arith, answered-length t c.awaiting id h))

  calm-steps :
      (c : Panel R) (as' : List (Action R))
      → IsCalm c as'
      → waits as' + steps_left (session c as').0 ≤ steps_left c
  unfolding session act
  calm-steps c [] q = omega arith
  calm-steps c (click disabled e up ∷ as') q = absurd q.0
  calm-steps c (timeout t ∷ as') q =
      omega (arith, calm-steps (fire c t).0 as' q.1, timeout-steps c t q.0)
  calm-steps c (answer t ∷ as') q =
      omega (arith, calm-steps (reply c t) as' q.1, answer-steps c t q.0)
  calm-steps c (report e ∷ as') q =
      omega (arith, calm-steps (confirm_state c e) as' q, report-steps c e)

  marker_ends :
      (c : Panel R) (id : String)
      → IsFading c
      → (lookup id c.pending ≡ none) ⊎ ((a : Action R) × CanHappen c a)
  marker_ends c id f = elim (Option-cases (lookup id c.pending)) [
    | inl gone ↦ inl gone
    | inr (p, shown) ↦ inr (elim (f.ends id p shown).1 [
      | inl (v, at) ↦ (timeout p.timer, (send id v, at))
      | inr (missing, rest) ↦ elim rest [
        | inl waits ↦ (answer p.timer, (id, waits))
        | inr (u, at) ↦ (timeout u, (forget id p.timer, at))
      ]
    ])
  ]

  -- After any session, once the user clicks no more, at most `steps_left` timers and answers come, in
  -- whatever order and with whatever state messages between them; and as long as a stepper still shows
  -- a pending value, one of them is still to come.
  pub pending_fades :
      (as' calm : List (Action R)) (id : String)
      → IsCalm (session fresh as').0 calm
      → let c = (session fresh as').0 in
        let c' = (session c calm).0 in
        (waits calm + steps_left c' ≤ steps_left c)
        × ((lookup id c'.pending ≡ none) ⊎ ((a : Action R) × CanHappen c' a))
  pending_fades as' calm id q =
      let c = (session fresh as').0 in
      (
        calm-steps c calm q,
        marker_ends (session c calm).0 id
            (session-IsFading c calm (session-IsFading fresh as' fresh-IsFading)),
      )
