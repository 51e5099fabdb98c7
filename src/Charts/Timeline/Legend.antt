-- ===== src/Charts/Timeline/Legend.antt =====
-- What `timeline` of web/nasa_web/static/js/charts.js draws of a row: its bar and its legend.
pub mod Agreement
use nasa_cpp.Base.{
  includes, ℕ, ◌≡◌, refl, sym, ap, subst, ◌∙◌, inl, inr, Bool, true, false, not, ◌&&◌, ◌||◌, Option,
  none, some, List, [], ◌∷◌, map, String, JsMap, lookup, insert, arith, filter, str_eq, eq_iff,
  is_null, if◌then◌else◌, Bool-cases, All,
}
use mathlib.Core.List.{reverse}
use nasa_cpp.Base.Number.{Number, ◌⊖◌, ◌⊗◌, ◌⊘◌}
use nasa_cpp.Charts.Timeline.{
  Segment, order_colours, add_colour, add_colours, colours_of, add_samples,
}

-- One `tl-seg`: its place and its width in percent, and its colour.
pub record Bar (R : Type 0) : Type 0 where
  pub state : String
  pub left : R
  pub width : R
  pub colour : Option ℕ

module _ {R : Type 0} ⦃num : Number R⦄ where
  -- `segs.map((x) => x.state)`
  abbrev pub segment_states : List (Segment R) → List String
  segment_states segs = map (λ (s : Segment R). s.state) segs

  abbrev pub bar_of : R → R → JsMap ℕ → Segment R → Bar R
  bar_of start span colours s = record {
    state = s.state;
    left = (s.a ⊖ start) ⊘ span ⊗ num.of_nat 100;
    width = (s.b ⊖ s.a) ⊘ span ⊗ num.of_nat 100;
    colour = lookup s.state colours;
  }

  -- The loop over the segments of a row, in the order of time, with `row.order` and `row.hide`.
  unfoldable pub bars : R → R → List String → List String → List (Segment R) → List (Bar R)
  bars start finish order hide segs =
      map (bar_of start (finish ⊖ start) (colours_of order (segment_states segs)))
        (filter (λ (s : Segment R). not (includes hide s.state)) segs)

  -- The entries of `tl-legend`.
  unfoldable pub legend : List String → List String → List (Segment R) → JsMap ℕ
  legend order hide segs =
      filter
        (λ (entry : String × ℕ).
          includes (segment_states segs) entry.0 && not (includes hide entry.0))
        (colours_of order (segment_states segs))

  -- One round of the loop over the rows.
  unfoldable pub drawn_row :
      R → R → R → List String → List String → List R → List (Option String) → List (Bar R) × JsMap ℕ
  unfolding bars legend
  drawn_row start finish now order hide ts texts =
      let segs = reverse (add_samples start finish now [] ts texts) in
      (bars start finish order hide segs, legend order hide segs)
