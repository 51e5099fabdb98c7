-- ===== src/Charts/Lines/Legend.antt =====
-- The plot of a line chart against its legend, over time (`lineChart` of
-- web/nasa_web/static/js/charts.js).
use nasa_cpp.Base.{ℕ, ◌≡◌, ◌⊎◌, Option, List, [], ◌∷◌}
use nasa_cpp.Base.Number.{Number}
use nasa_cpp.Charts.Lines.{Line, LineEvent, tables, hidden_from, prepared, plot_of}

module _ {R : Type 0} ⦃num : Number R⦄ where
  -- What the chart was given last.
  abbrev pub given :
      Option (List (List (R × Option R))) → List (LineEvent R) → Option (List (List (R × Option R)))
  given o [] = o
  given o (tables ts ∷ es) = given (prepared ts) es
  given o (e ∷ es) = given o es

  -- The plot shows the series that are not hidden, of what was given; the legend, where it has been
  -- drawn, marks the hidden ones.
  record IsInStep (n : ℕ) (o : Option (List (List (R × Option R)))) (l : Line R) : Type 0 where
    counted : l.count ≡ n
    held : l.joined ≡ o
    drawn : l.plot ≡ plot_of l.hidden n o
    marked : (l.off ≡ []) ⊎ (l.off ≡ hidden_from l.hidden 0 n)
