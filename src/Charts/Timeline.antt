-- ===== src/Charts/Timeline.antt =====
-- `timeline` of web/nasa_web/static/js/charts.js: the segments of one row, and their colours.
pub mod Segments
pub mod Colours
pub mod Legend
use nasa_cpp.Base.{
  ℕ, suc, ◌%◌, ◌+◌, Bool, true, false, ◌&&◌, Option, none, some, List, [], ◌∷◌, ◌++◌, String, JsMap,
  lookup, insert, length, str_eq, or_else, is_null, if◌then◌else◌,
}
use nasa_cpp.Base.Number.{Number, ◌⊖◌, max_num, min_num, abs_num}

pub record Segment (R : Type 0) : Type 0 where
  pub state : String
  pub a : R
  pub b : R

-- `text[i] ?? "–"` and the rest, where `text` may be shorter
abbrev pub first_text : List (Option String) → String
first_text [] = "–"
first_text (x ∷ texts) = or_else x "–"

abbrev pub other_texts : List (Option String) → List (Option String)
other_texts [] = []
other_texts (x ∷ texts) = texts

module _ {R : Type 0} ⦃num : Number R⦄ where
  -- One round of the loop, for a sample that lasts from `a` to `b`. The last segment stands first.
  unfoldable pub add_segment : List (Segment R) → String → R → R → List (Segment R)
  add_segment [] state a b = if num.le b a then [] else record { state = state; a = a; b = b } ∷ []
  add_segment (last ∷ segs) state a b =
      if num.le b a
      then last ∷ segs
      else if str_eq last.state state && num.lt (abs_num (last.b ⊖ a)) (num.of_nat 1)
      then record last { b = b } ∷ segs
      else record { state = state; a = a; b = b } ∷ last ∷ segs

  -- `i + 1 < t.length ? t[i + 1] : Math.min(end, Date.now() / 1000)`
  abbrev pub next_time : R → R → List R → R
  next_time finish now [] = min_num finish now
  next_time finish now (u ∷ ts) = u

  -- The loop over the samples, from `start` to `end` (here `finish`).
  unfoldable pub add_samples :
      R → R → R → List (Segment R) → List R → List (Option String) → List (Segment R)
  add_samples start finish now segs [] texts = segs
  add_samples start finish now segs (t ∷ ts) texts =
      add_samples start finish now
        (add_segment segs (first_text texts) (max_num start t)
          (min_num finish (next_time finish now ts)))
        ts (other_texts texts)

-- `colors` holds the place of each colour in the palette of eight.
abbrev pub palette_size : ℕ
palette_size = 8

-- `(row.order || []).forEach((s, i) => colors.set(s, palette[i % palette.length]))`
unfoldable pub order_colours : ℕ → List String → JsMap ℕ → JsMap ℕ
order_colours i [] colours = colours
order_colours i (s ∷ order) colours =
    order_colours (i + 1) order (insert s (i % palette_size) colours)

-- `if (!colors.has(st)) colors.set(st, palette[colors.size % palette.length])`
abbrev pub add_colour : JsMap ℕ → String → JsMap ℕ
add_colour colours s =
    if is_null (lookup s colours) then insert s (length colours % palette_size) colours else colours

unfoldable pub add_colours : JsMap ℕ → List String → JsMap ℕ
add_colours colours [] = colours
add_colours colours (s ∷ seen) = add_colours (add_colour colours s) seen

unfoldable pub colours_of : List String → List String → JsMap ℕ
unfolding order_colours add_colours
colours_of order seen = add_colours (order_colours 0 order []) seen
