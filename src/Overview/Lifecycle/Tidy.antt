-- ===== src/Overview/Lifecycle/Tidy.antt =====
-- What the overview draws, and what it leaves behind when it leaves the page
-- (web/nasa_web/static/js/views/overview.js).
use nasa_cpp.Base.{
  ℕ, ◌-◌, ◌≡◌, refl, sym, subst, inl, inr, Bool, true, false, Option, none, some, List, [], ◌∷◌,
  ◌++◌, arith, All, if◌then◌else◌, ◌==◌, Bool-cases,
}
use nasa_cpp.Overview.Lifecycle.{
  Job, history, today, flow_sub, Live, Draw, LiveEvent, mount, answered, today_answered, rerender,
  update, unmount, frame, interval, has_handle, cancel, clear_all, job_of, load_history, destroy,
  fill, run_job, live_step, live_run,
}

-- As app.js calls the view: `mount` while it is not on the page, `update` and `unmount` while it is.
abbrev pub Allowed : Bool → LiveEvent → Type 0
Allowed here (mount asks counters) = here ≡ false
Allowed here update = here ≡ true
Allowed here unmount = here ≡ true
Allowed here e = Unit

abbrev pub next_here : Bool → LiveEvent → Bool
next_here here (mount asks counters) = true
next_here here unmount = false
next_here here e = here

abbrev pub IsRouted : Bool → List LiveEvent → Type 0
IsRouted here [] = Unit
IsRouted here (e ∷ es) = Allowed here e × IsRouted (next_here here e) es

-- Whether the view is on the page after the events.
abbrev pub here_after : Bool → List LiveEvent → Bool
here_after here [] = here
here_after here (e ∷ es) = here_after (next_here here e) es

-- `Draws c draws c'`: with the chart `c`, or none, the draws leave `c'`. A chart is made where there is
-- none, and only the chart that is there is filled and destroyed; without one, nothing is drawn but the
-- cards of today and of controls.
pub data Draws : Option ℕ → List Draw → Option ℕ → Type 0 where
  done : {c : Option ℕ} → Draws c [] c
  made :
      {n : ℕ} {c : Option ℕ} {ds : List Draw}
      → Draws (some n) ds c
      → Draws none (Draw.made n ∷ ds) c
  destroyed :
      {n : ℕ} {c : Option ℕ} {ds : List Draw}
      → Draws none ds c
      → Draws (some n) (Draw.destroyed n ∷ ds) c
  filled :
      {n : ℕ} {c : Option ℕ} {ds : List Draw}
      → Draws (some n) ds c
      → Draws (some n) (Draw.filled n ∷ ds) c
  rendered :
      {n : ℕ} {c : Option ℕ} {ds : List Draw}
      → Draws (some n) ds c
      → Draws (some n) (Draw.rendered ∷ ds) c
  today_card :
      {c c' : Option ℕ} {ds : List Draw} → Draws c ds c' → Draws c (Draw.today_card ∷ ds) c'
  controls_card :
      {c c' : Option ℕ} {ds : List Draw} → Draws c ds c' → Draws c (Draw.controls_card ∷ ds) c'

Draws-append :
    {a b c : Option ℕ} {xs ys : List Draw} → Draws a xs b → Draws b ys c → Draws a (xs ++ ys) c
Draws-append Draws.done k = k
Draws-append (Draws.made h) k = Draws.made (Draws-append h k)
Draws-append (Draws.destroyed h) k = Draws.destroyed (Draws-append h k)
Draws-append (Draws.filled h) k = Draws.filled (Draws-append h k)
Draws-append (Draws.rendered h) k = Draws.rendered (Draws-append h k)
Draws-append (Draws.today_card h) k = Draws.today_card (Draws-append h k)
Draws-append (Draws.controls_card h) k = Draws.controls_card (Draws-append h k)

-- While the view is not on the page, nothing of it is left to run; while it is, its frames and intervals
-- are those that `unmount` takes away.
abbrev pub IsTidy : Bool → Live → Type 0
IsTidy false s = (s.chart ≡ none) × (s.frames ≡ []) × (s.intervals ≡ [])
IsTidy true s =
    ((n : ℕ) × (s.chart ≡ some n))
    × All (λ h. h ≡ s.raf) s.frames
    × All (λ (x : ℕ × Job). has_handle s.timers x.0 ≡ true) s.intervals

cancel-All : (P : ℕ → Type 0) (h : ℕ) (xs : List ℕ) → All P xs → All P (cancel h xs)
cancel-All P h [] q = tt
cancel-All P h (x ∷ xs) (p, q) = elim (Bool-cases (x == h)) [
  | inl same ↦ rw same (cancel-All P h xs q)
  | inr other ↦ rw other (p, cancel-All P h xs q)
]

cancel-only : (h : ℕ) (xs : List ℕ) → All (λ x. x ≡ h) xs → cancel h xs ≡ []
cancel-only h [] q = refl
cancel-only h (x ∷ xs) (p, q) = ground (arith, cancel-only h xs q)

clear_all-only :
    (hs : List ℕ) (xs : List (ℕ × Job))
    → All (λ (x : ℕ × Job). has_handle hs x.0 ≡ true) xs
    → clear_all hs xs ≡ []
clear_all-only hs [] q = refl
clear_all-only hs (x ∷ xs) (p, q) = rw p (clear_all-only hs xs q)

destroy-Draws : (c : Option ℕ) → Draws c (destroy c) none
destroy-Draws none = Draws.done
destroy-Draws (some n) = Draws.destroyed Draws.done

fill-Draws : (c : Option ℕ) → Draws c (fill c) c
fill-Draws none = Draws.done
fill-Draws (some n) = Draws.filled (Draws.rendered Draws.done)

load_history-kept :
    (here asks : Bool) (s : Live)
    → IsTidy here s
    → IsTidy here (load_history asks s) × ((load_history asks s).chart ≡ s.chart)
load_history-kept true true s t = (t, refl)
load_history-kept true false s t = (t, refl)
load_history-kept false true s t = (t, refl)
load_history-kept false false s t = (t, refl)

rendered-Draws : (c : Option ℕ) (n : ℕ) → c ≡ some n → Draws c (Draw.rendered ∷ []) c
rendered-Draws c n e =
    subst (λ c. Draws c (Draw.rendered ∷ []) c) (sym e) (Draws.rendered Draws.done)

-- What a step of the view keeps.
abbrev pub Kept : Bool → Live → Live × List Draw → Type 0
Kept here s (s', draws) = IsTidy here s' × Draws s.chart draws s'.chart

run_job-Kept :
    (asks : Bool) (s : Live) (job : Option Job) → IsTidy true s → Kept true s (run_job asks s job)
run_job-Kept asks s none t = (t, Draws.done)
run_job-Kept true s (some history) t = (t, Draws.done)
run_job-Kept false s (some history) t = (t, Draws.done)
run_job-Kept true s (some today) t = (t, Draws.done)
run_job-Kept false s (some today) t = (t, Draws.today_card Draws.done)
run_job-Kept asks s (some flow_sub) t = (t, rendered-Draws s.chart t.0.0 t.0.1)

mount-Kept :
    (s : Live) (asks counters : Bool)
    → IsTidy false s
    → Kept true s (live_step s (mount asks counters))
unfolding live_step
mount-Kept s true true (c, f, i) = (
  ((s.charts, refl), rw f tt, (ground arith, (ground arith, (ground arith, rw i tt)))),
  rw c (Draws.made (Draws.rendered Draws.done)),
)
mount-Kept s false true (c, f, i) = (
  ((s.charts, refl), rw f tt, (ground arith, (ground arith, (ground arith, rw i tt)))),
  rw c (Draws.made (Draws.rendered Draws.done)),
)
mount-Kept s true false (c, f, i) = (
  ((s.charts, refl), rw f tt, (ground arith, (ground arith, (ground arith, rw i tt)))),
  rw c (Draws.made (Draws.rendered (Draws.today_card Draws.done))),
)
mount-Kept s false false (c, f, i) = (
  ((s.charts, refl), rw f tt, (ground arith, (ground arith, (ground arith, rw i tt)))),
  rw c (Draws.made (Draws.rendered (Draws.today_card Draws.done))),
)

answered-Kept :
    (here : Bool) (s : Live) (ok : Bool) → IsTidy here s → Kept here s (live_step s (answered ok))
unfolding live_step
answered-Kept here s ok t = elim (Bool-cases (s.waiting == 0)) [
  | inl idle ↦ rw (idle, live_step) (t, Draws.done)
  | inr busy ↦ rw (busy, live_step) (waiting_kept here t, answer ok)
]
  where
    waiting_kept : (h : Bool) → IsTidy h s → IsTidy h (record s { waiting = s.waiting - 1 })
    waiting_kept true k = k
    waiting_kept false k = k

    answer : (b : Bool) → Draws s.chart (if b then fill s.chart else []) s.chart
    answer true = fill-Draws s.chart
    answer false = Draws.done

today_answered-Kept :
    (here : Bool) (s : Live) (ok : Bool)
    → IsTidy here s
    → Kept here s (live_step s (today_answered ok))
unfolding live_step
today_answered-Kept here s ok t = elim (Bool-cases (s.waiting_today == 0)) [
  | inl idle ↦ rw (idle, live_step) (t, Draws.done)
  | inr busy ↦ rw (busy, live_step) (waiting_kept here t, answer ok)
]
  where
    waiting_kept :
        (h : Bool) → IsTidy h s → IsTidy h (record s { waiting_today = s.waiting_today - 1 })
    waiting_kept true k = k
    waiting_kept false k = k

    answer : (b : Bool) → Draws s.chart (if b then Draw.today_card ∷ [] else []) s.chart
    answer true = Draws.today_card Draws.done
    answer false = Draws.done

rerender-Kept :
    (here : Bool) (s : Live) (found : Bool)
    → IsTidy here s
    → Kept here s (live_step s (rerender found))
unfolding live_step
rerender-Kept here s true t = (t, Draws.controls_card Draws.done)
rerender-Kept here s false t = (t, Draws.done)

step-Kept :
    (here : Bool) (s : Live) (e : LiveEvent)
    → Allowed here e
    → IsTidy here s
    → Kept (next_here here e) s (live_step s e)
unfolding live_step
step-Kept true s (mount asks counters) a t = cc
step-Kept false s (mount asks counters) a t = mount-Kept s asks counters t
step-Kept false s update a t = cc
step-Kept true s update a (n, f, i) =
    ((n, (refl, rw (cancel-only s.raf s.frames f) tt), i), Draws.done)
step-Kept false s unmount a t = cc
step-Kept true s unmount a (n, f, i) = (
  (refl, cancel-only s.raf s.frames f, clear_all-only s.timers s.intervals i),
  destroy-Draws s.chart,
)
step-Kept here s (answered ok) a t = answered-Kept here s ok t
step-Kept here s (today_answered ok) a t = today_answered-Kept here s ok t
step-Kept here s (rerender found) a t = rerender-Kept here s found t
step-Kept false s (frame h) a (c, f, i) =
    let quiet : has_handle s.frames h ≡ false = rw f refl in
    rw (quiet, live_step) ((c, f, i), Draws.done)
step-Kept true s (frame h) a (n, f, i) = elim (Bool-cases (has_handle s.frames h)) [
  | inl runs ↦
      rw (runs, live_step)
        ((n, cancel-All (λ x. x ≡ s.raf) h s.frames f, i), rendered-Draws s.chart n.0 n.1)
  | inr gone ↦ rw (gone, live_step) ((n, f, i), Draws.done)
]
step-Kept false s (interval h asks) a (c, f, i) =
    let quiet : job_of h s.intervals ≡ none = rw i refl in
    rw (quiet, live_step) ((c, f, i), Draws.done)
step-Kept true s (interval h asks) a t = run_job-Kept asks s (job_of h s.intervals) t

-- However mounts, updates, unmounts, frames, intervals, answers and commands of the controls follow one
-- another, as the router calls the view: while it has no chart, which is while it is not on the page,
-- nothing of the overview is drawn but the card of today, for an answer that was under way, and the card
-- of controls, for a command. A chart is filled only between the time it is made and the time it is
-- destroyed. When the view has left the page, no chart, frame or interval of it is left.
pub live_run-Kept :
    (here : Bool) (s : Live) (es : List LiveEvent)
    → IsTidy here s
    → IsRouted here es
    → Kept (here_after here es) s (live_run s es)
unfolding live_run
live_run-Kept here s [] t r = (t, Draws.done)
live_run-Kept here s (e ∷ es) t (a, r) =
    let (t', d) = step-Kept here s e a t in
    let (t'', ds) = live_run-Kept (next_here here e) (live_step s e).0 es t' r in
    (t'', Draws-append d ds)
