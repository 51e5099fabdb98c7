-- ===== src/Charts/Lines.antt =====
-- `lineChart` of web/nasa_web/static/js/charts.js: the series that the legend hides, the plot, and the
-- data that it draws.
pub mod Legend
use nasa_cpp.Base.{
  subst, ℕ, zero, suc, ◌+◌, ◌<◌, ◌≡◌, refl, ap, ◌∙◌, sym, ◌≢◌, ◌⊎◌, inl, inr, Bool, true, false,
  not, ◌&&◌, ◌||◌, Option, none, some, List, [], ◌∷◌, ◌++◌, map, set, filter, length, arith, ltb,
  ◌==◌, if◌then◌else◌, Bool-cases,
}
use nasa_cpp.Base.Number.{Number}
use nasa_cpp.Charts.Gaps.{with_gaps}

-- A series of samples: `[t[], v[]]`.
abbrev pub Table : Type 0 → Type 0
Table R = List R × List (Option R)

-- `new uPlot(opts, data, plotEl)`: which series are shown, and what is drawn.
pub record Plot (R : Type 0) : Type 0 where
  pub shown : List Bool
  pub rows : List (List (R × Option R))

pub record Line (R : Type 0) : Type 0 where
  pub count : ℕ  -- `series.length`
  pub has_legend : Bool  -- `legend`
  pub hidden : List ℕ
  pub off : List Bool  -- the spans of `legendEl`, by whether they are marked as off
  pub joined : Option (List (List (R × Option R)))  -- `data`, before `uPlot.join`
  pub plot : Option (Plot R)  -- `u`

-- A click on the span of a series, new tables, and a change of the theme.
pub data LineEvent (R : Type 0) : Type 0 where
  toggle : ℕ → LineEvent R
  tables : List (Table R) → LineEvent R
  theme : LineEvent R

-- `hidden.has(i)`
abbrev pub has : List ℕ → ℕ → Bool
has [] i = false
has (j ∷ hidden) i = j == i || has hidden i

-- `hidden.has(i) ? hidden.delete(i) : hidden.add(i)`
unfoldable pub toggled : List ℕ → ℕ → List ℕ
toggled hidden i = if has hidden i then filter (λ j. not (j == i)) hidden else hidden ++ i ∷ []

-- Which of the `n` series from `i` on are hidden, and which are shown.
abbrev pub hidden_from : List ℕ → ℕ → ℕ → List Bool
hidden_from hidden i zero = []
hidden_from hidden i (suc n) = has hidden i ∷ hidden_from hidden (i + 1) n

abbrev pub shown_from : List ℕ → ℕ → ℕ → List Bool
shown_from hidden i zero = []
shown_from hidden i (suc n) = not (has hidden i) ∷ shown_from hidden (i + 1) n

abbrev pub is_filled : {A : Type 0} → List A → Bool
is_filled [] = false
is_filled (a ∷ as') = true

-- `prepared.some(([t]) => t.length)`
abbrev pub some_filled : {A : Type 0} → List (List A) → Bool
some_filled [] = false
some_filled (t ∷ ts) = is_filled t || some_filled ts

module _ {R : Type 0} ⦃num : Number R⦄ where
  -- `tables.map(([t, v]) => withGaps(t, v, 20 * 60))`, and null where all are empty
  unfoldable pub prepared : List (Table R) → Option (List (List (R × Option R)))
  prepared ts =
      let rows = map (λ (table : Table R). with_gaps table.0 table.1 (num.of_nat 1200)) ts in
      if some_filled rows then some rows else none

  abbrev pub render_legend : Line R → Line R
  render_legend l = record l { off = hidden_from l.hidden 0 l.count }

  -- `if (legend) renderLegend()`
  abbrev pub legend_drawn : Line R → Line R
  legend_drawn l = if l.has_legend then render_legend l else l

  abbrev pub plot_of : List ℕ → ℕ → Option (List (List (R × Option R))) → Option (Plot R)
  plot_of hidden n none = none
  plot_of hidden n (some rows) = some (record { shown = shown_from hidden 0 n; rows = rows })

  abbrev pub build : Line R → Line R
  build l = record l { plot = plot_of l.hidden l.count l.joined }

  -- `u?.setSeries(i + 1, { show })`
  abbrev pub with_series : Option (Plot R) → ℕ → Bool → Option (Plot R)
  with_series none i show = none
  with_series (some p) i show = some (record p { shown = set p.shown i show })

  -- The listener of the legend, where the click met a span.
  unfoldable pub on_legend : Line R → ℕ → Line R
  on_legend l i =
      let hidden = toggled l.hidden i in
      if ltb i (length l.off)
      then render_legend
          (record l { hidden = hidden; plot = with_series l.plot i (not (has hidden i)) })
      else l

  unfoldable pub line_step : Line R → LineEvent R → Line R
  unfolding on_legend prepared
  line_step l (toggle i) = on_legend l i
  line_step l (tables ts) = build (legend_drawn (record l { joined = prepared ts }))
  line_step l theme = build (legend_drawn l)

  unfoldable pub line_run : Line R → List (LineEvent R) → Line R
  line_run l [] = l
  line_run l (e ∷ es) = line_run (line_step l e) es

  -- `lineChart(el, { series, legend })`
  abbrev pub new_line : ℕ → Bool → Line R
  new_line n legend = record {
    count = n;
    has_legend = legend;
    hidden = [];
    off = [];
    joined = none;
    plot = none;
  }
