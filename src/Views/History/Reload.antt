-- ===== src/Views/History/Reload.antt =====
-- web/nasa_web/static/js/views/history.js over time: the range bar (renderRangeBar), and the loads of
-- the fixed charts, whose answers come some time after they are asked for.
pub mod InOrder
use nasa_cpp.Base.{
  erase_at, ◌||◌, zero, suc, ℕ, ◌≡◌, Bool, true, false, Option, none, some, List, [], ◌∷◌, ◌++◌,
  get_elem?, map, if◌then◌else◌,
}
use nasa_cpp.Base.Number.{Number, ◌⊗◌}
use nasa_cpp.Views.History.{Range, Move, move, range, reloads}

-- What the range bar shows.
pub record RangeBar (R : Type 0) : Type 0 where
  pub start : R
  pub until : Option R  -- none is "now"
  pub with_hour : Bool  -- `opts`: whether the two dates have an hour
  pub active : List Bool  -- of the buttons in `h-ranges`
  pub next_disabled : Bool

-- The page; an interval is a start and an end, as `range()` gives it.
pub record Past (R : Type 0) : Type 0 where
  pub shown : Range R
  pub bar : RangeBar R
  pub waiting : List (R × R)  -- the intervals of the requests without an answer, oldest first
  pub charts : List (Option (R × R))  -- of each chart, the interval of the data that it was filled with

-- What happens: a listener calls `load`, the 30 s timer fires, or a request succeeds or fails. Each
-- comes with what the store then holds: whether a sensor of the chart with an index is gone.
pub data PastEvent (R : Type 0) : Type 0 where
  moved : R → Move R → (ℕ → Bool) → PastEvent R
  tick : R → (ℕ → Bool) → PastEvent R
  answered : ℕ → Bool → (ℕ → Bool) → PastEvent R

-- `RANGES`
abbrev pub spans : List ℕ
spans = 3600 ∷ 21600 ∷ 86400 ∷ 604800 ∷ 2592000 ∷ 7776000 ∷ 31536000 ∷ []

module _ {R : Type 0} ⦃num : Number R⦄ where
  abbrev pub follows_now : Option R → Bool
  follows_now none = true
  follows_now (some e) = false

  unfoldable pub render_range_bar : R → Range R → RangeBar R
  render_range_bar now r = record {
    start = (range now r).0;
    until = r.finish;
    with_hour = if num.le (num.of_nat 2 ⊗ num.of_nat 86400) r.span then false else true;
    active = map (λ s. num.same (num.of_nat s) r.span) spans;
    next_disabled = follows_now r.finish;
  }

  -- `ent(x.name).id` throws for a sensor that is gone.
  abbrev pub some_gone : ℕ → (ℕ → Bool) → List (Option (R × R)) → Bool
  some_gone i gone [] = false
  some_gone i gone (c ∷ cs) = gone i || some_gone (suc i) gone cs

  -- `load`, up to the request; the range bar is rendered before the ids are collected
  unfoldable pub load : R → (ℕ → Bool) → Past R → Past R
  load now gone s =
      let named = record s { bar = render_range_bar now s.shown } in
      if some_gone 0 gone s.charts
      then named
      else record named { waiting = s.waiting ++ range now s.shown ∷ [] }

  -- `for (const c of charts) c.chart.setData(…)`, up to the first chart that throws
  abbrev pub fill_charts : R × R → (ℕ → Bool) → ℕ → List (Option (R × R)) → List (Option (R × R))
  fill_charts asked gone i [] = []
  fill_charts asked gone i (c ∷ cs) =
      let rest = fill_charts asked gone (suc i) cs in if gone i then c ∷ cs else some asked ∷ rest

  -- `load`, from the answer on
  abbrev pub on_loaded : Past R → ℕ → Bool → (ℕ → Bool) → Option (R × R) → Past R
  on_loaded s i ok gone none = s
  on_loaded s i true gone (some asked) = record s {
    waiting = erase_at s.waiting i;
    charts = fill_charts asked gone 0 s.charts;
  }
  on_loaded s i false gone (some asked) = record s { waiting = erase_at s.waiting i }

  unfoldable pub past_step : Past R → PastEvent R → Past R
  past_step s (moved now m gone) = load now gone (record s { shown = move now s.shown m })
  past_step s (tick now gone) = if reloads s.shown then load now gone s else s
  past_step s (answered i ok gone) = on_loaded s i ok gone (get_elem? s.waiting i)

  unfoldable pub past_run : Past R → List (PastEvent R) → Past R
  past_run s [] = s
  past_run s (e ∷ es) = past_run (past_step s e) es

  abbrev unfilled_charts : ℕ → List (Option (R × R))
  unfilled_charts zero = []
  unfilled_charts (suc n) = none ∷ unfilled_charts n

  -- The page after `mount`, with `n` charts, whose sensors are all known
  abbrev pub mounted : ℕ → R → Range R → Past R
  mounted n now r = record {
    shown = r;
    bar = render_range_bar now r;
    waiting = range now r ∷ [];
    charts = unfilled_charts n;
  }
