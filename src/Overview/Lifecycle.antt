-- ===== src/Overview/Lifecycle.antt =====
-- The page of web/nasa_web/static/js/views/overview.js from `mount` to `unmount` and after: its chart,
-- its intervals, its animation frame, and the requests and commands that are under way.
pub mod Tidy
use nasa_cpp.Base.{
  ℕ, zero, suc, ◌+◌, ◌-◌, ◌≡◌, ◌≢◌, refl, inl, inr, Bool, true, false, ◌||◌, Option, none, some,
  List, [], ◌∷◌, ◌++◌, arith, All, filter, not, if◌then◌else◌, ◌==◌, Bool-cases, Option-cases,
}

-- What an interval calls: `loadHistory`, `loadToday` or `renderFlowSub`.
pub data Job : Type 0 where
  history today flow_sub : Job

-- The module's variables, and what the browser still has to run.
pub record Live : Type 0 where
  pub chart : Option ℕ  -- which of the charts that were made
  pub charts : ℕ  -- how many were made
  pub timers : List ℕ  -- the variable `timers`
  pub intervals : List (ℕ × Job)  -- the intervals that run
  pub raf : ℕ  -- the variable `raf`
  pub frames : List ℕ  -- the frames that were requested, and neither cancelled nor run
  pub handles : ℕ  -- handles below it have been given out
  pub waiting : ℕ  -- calls of `loadHistory` without an answer
  pub waiting_today : ℕ  -- calls of `loadToday` without an answer

-- What is done to the page: a chart is made, destroyed or filled, the card of today or that of controls
-- is written for an answer, and other parts of the page are rendered.
pub data Draw : Type 0 where
  made destroyed filled : ℕ → Draw
  rendered today_card controls_card : Draw

-- What happens. A call of `loadHistory` asks the server if any of its entities is known, one of
-- `loadToday` if both counters are; `mount` says both, and `interval` what its call needs. A request
-- succeeds or fails. The listeners of `bindControls` call `rerender` for a command (controls.js), also
-- after `unmount`, when the card may be gone.
pub data LiveEvent : Type 0 where
  mount : Bool → Bool → LiveEvent
  answered today_answered : Bool → LiveEvent
  update unmount : LiveEvent
  frame : ℕ → LiveEvent
  interval : ℕ → Bool → LiveEvent
  rerender : Bool → LiveEvent

abbrev pub has_handle : List ℕ → ℕ → Bool
has_handle [] h = false
has_handle (x ∷ xs) h = (x == h) || has_handle xs h

-- `cancelAnimationFrame(h)`
abbrev pub cancel : ℕ → List ℕ → List ℕ
cancel h [] = []
cancel h (x ∷ xs) = let rest = cancel h xs in if x == h then rest else x ∷ rest

-- `timers.forEach(clearInterval)`
abbrev pub clear_all : List ℕ → List (ℕ × Job) → List (ℕ × Job)
clear_all hs [] = []
clear_all hs (x ∷ xs) = let rest = clear_all hs xs in if has_handle hs x.0 then rest else x ∷ rest

abbrev pub job_of : ℕ → List (ℕ × Job) → Option Job
job_of h [] = none
job_of h (x ∷ xs) = let rest = job_of h xs in if x.0 == h then some x.1 else rest

-- The first part of `loadHistory`.
abbrev pub load_history : Bool → Live → Live
load_history true s = record s { waiting = suc s.waiting }
load_history false s = s

abbrev pub destroy : Option ℕ → List Draw
destroy none = []
destroy (some n) = destroyed n ∷ []

-- After the answer: `if (!chart) return;`, and the rest of `loadHistory`
abbrev pub fill : Option ℕ → List Draw
fill none = []
fill (some n) = filled n ∷ rendered ∷ []

-- The first part of `loadToday`: without the counters the card says so at once.
abbrev pub load_today : Bool → Live → Live × List Draw
load_today true s = (record s { waiting_today = suc s.waiting_today }, [])
load_today false s = (s, today_card ∷ [])

abbrev pub run_job : Bool → Live → Option Job → Live × List Draw
run_job asks s none = (s, [])
run_job asks s (some history) = (load_history asks s, [])
run_job asks s (some today) = load_today asks s
run_job asks s (some flow_sub) = (s, rendered ∷ [])

unfoldable pub live_step : Live → LiveEvent → Live × List Draw
live_step s (mount asks counters) =
    let h = s.handles in
    let (s', drawn) = load_today counters (
      load_history asks (record s {
        chart = some s.charts;
        charts = suc s.charts;
        timers = h ∷ suc h ∷ suc (suc h) ∷ [];
        intervals = (h, history) ∷ (suc h, today) ∷ (suc (suc h), flow_sub) ∷ s.intervals;
        handles = suc (suc (suc h));
      })) in
    (s', made s.charts ∷ rendered ∷ drawn)
live_step s update = (
  record s { raf = s.handles; frames = s.handles ∷ cancel s.raf s.frames; handles = suc s.handles },
  [],
)
live_step s unmount = (
  record s {
    chart = none;
    intervals = clear_all s.timers s.intervals;
    frames = cancel s.raf s.frames;
  },
  destroy s.chart,
)
live_step s (answered ok) =
    if s.waiting == 0
    then (s, [])
    else (record s { waiting = s.waiting - 1 }, if ok then fill s.chart else [])
live_step s (today_answered ok) =
    if s.waiting_today == 0
    then (s, [])
    else (record s { waiting_today = s.waiting_today - 1 }, if ok then today_card ∷ [] else [])
live_step s (rerender found) = (s, if found then controls_card ∷ [] else [])
live_step s (frame h) =
    if has_handle s.frames h
    then (record s { frames = cancel h s.frames }, rendered ∷ [])
    else (s, [])
live_step s (interval h asks) = run_job asks s (job_of h s.intervals)

unfoldable pub live_run : Live → List LiveEvent → Live × List Draw
live_run s [] = (s, [])
live_run s (e ∷ es) =
    let (s', draws) = live_step s e in let (s'', later) = live_run s' es in (s'', draws ++ later)
