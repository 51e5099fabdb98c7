-- ===== src/Charts/Timeline/Legend/Agreement.antt =====
-- The bar of a row against its legend (`timeline` of web/nasa_web/static/js/charts.js).
use nasa_cpp.Base.{
  includes, ℕ, ◌≡◌, refl, sym, ap, subst, ◌∙◌, inl, inr, Bool, true, false, not, ◌&&◌, ◌||◌, Option,
  List, [], ◌∷◌, map, String, JsMap, lookup, insert, arith, filter, str_eq, eq_iff, is_null,
  Bool-cases, All,
}
use mathlib.Core.List.{reverse}
use nasa_cpp.Base.Number.{Number, ◌⊖◌}
use nasa_cpp.Charts.Timeline.{
  Segment, order_colours, add_colour, add_colours, colours_of, add_samples,
}
use nasa_cpp.Charts.Timeline.Legend.{Bar, segment_states, bar_of, bars, legend, drawn_row}

or_comm : (a b : Bool) → (a || b) ≡ (b || a)
or_comm true true = refl
or_comm true false = refl
or_comm false true = refl
or_comm false false = refl

-- A map has a key.
abbrev pub has_key : JsMap ℕ → String → Bool
has_key [] k = false
has_key ((j, c) ∷ m) k = str_eq j k || has_key m k

has_key-insert :
    (k j : String) (c : ℕ) (m : JsMap ℕ) → has_key (insert k c m) j ≡ (str_eq k j || has_key m j)
has_key-insert k j c [] = refl
has_key-insert k j c ((i, b) ∷ m) =
    ground (arith, eq_iff i k, eq_iff i j, eq_iff k j, has_key-insert k j c m)

has_key-lookup : (k : String) (m : JsMap ℕ) → is_null (lookup k m) ≡ not (has_key m k)
has_key-lookup k [] = refl
has_key-lookup k ((j, c) ∷ m) = ground (arith, has_key-lookup k m)

has_key-add_colour :
    (m : JsMap ℕ) (s k : String) → has_key (add_colour m s) k ≡ (has_key m k || str_eq s k)
has_key-add_colour m s k = elim (Bool-cases (is_null (lookup s m))) [
  | inl new ↦ rw new (has_key-insert s k _ m ∙ or_comm (str_eq s k) (has_key m k))
  | inr old ↦ elim (Bool-cases (str_eq s k)) [
    | inr other ↦ rw (old, other) (ground arith)
    | inl same ↦
        let s≡k : s ≡ k = (eq_iff s k).0 same in
        let there : has_key m s ≡ true = ground (arith, has_key-lookup s m) in
        let there' : has_key m k ≡ true = subst (λ x. has_key m x ≡ true) s≡k there in
        rw (old, there') refl
  ]
]

has_key-add_colours :
    (m : JsMap ℕ) (seen : List String) (k : String)
    → has_key (add_colours m seen) k ≡ (has_key m k || includes seen k)
unfolding add_colours
has_key-add_colours m [] k = ground arith
has_key-add_colours m (s ∷ seen) k =
    ground (arith, has_key-add_colours (add_colour m s) seen k, has_key-add_colour m s k)

has_key-filter :
    (p : String → Bool) (m : JsMap ℕ) (k : String)
    → has_key (filter (λ (entry : String × ℕ). p entry.0) m) k ≡ (has_key m k && p k)
has_key-filter p [] k = refl
has_key-filter p ((j, c) ∷ m) k = elim (Bool-cases (str_eq j k)) [
  | inl same ↦
      let p_same : p j ≡ p k = ap p ((eq_iff j k).0 same) in
      ground (arith, p_same, has_key-filter p m k)
  | inr other ↦ ground (arith, has_key-filter p m k)
]

lookup-filter :
    (p : String → Bool) (m : JsMap ℕ) (k : String)
    → p k ≡ true
    → lookup k (filter (λ (entry : String × ℕ). p entry.0) m) ≡ lookup k m
lookup-filter p [] k h = refl
lookup-filter p ((j, c) ∷ m) k h = elim (Bool-cases (str_eq j k)) [
  | inl same ↦ let p_same : p j ≡ p k = ap p ((eq_iff j k).0 same) in ground (arith, p_same)
  | inr other ↦ ground (arith, lookup-filter p m k h)
]

module _ {R : Type 0} ⦃num : Number R⦄ where
  -- A bar of a state is drawn.
  abbrev pub has_bar : List (Bar R) → String → Bool
  has_bar [] s = false
  has_bar (b ∷ bs) s = str_eq b.state s || has_bar bs s

  -- Every state has a colour.
  coloured :
      (order : List String) (segs : List (Segment R)) (s : String)
      → includes (segment_states segs) s ≡ true
      → has_key (colours_of order (segment_states segs)) s ≡ true
  unfolding colours_of
  coloured order segs s h =
      ground (arith, has_key-add_colours (order_colours 0 order []) (segment_states segs) s)

  absorb :
      (order : List String) (segs : List (Segment R)) (s : String) (visible : Bool)
      → let seen = segment_states segs in
        (has_key (colours_of order seen) s && (includes seen s && visible))
        ≡ (includes seen s && visible)
  absorb order segs s visible = elim (Bool-cases (includes (segment_states segs) s)) [
    | inl there ↦ rw (coloured order segs s there) refl
    | inr absent ↦ ground (arith, absent)
  ]

  has_bar-visible :
      (start span : R) (colours : JsMap ℕ) (hide : List String) (segs : List (Segment R))
      (s : String)
      → has_bar
          (map
            (bar_of start span colours)
            (filter (λ (g : Segment R). not (includes hide g.state)) segs))
          s
        ≡ (includes (segment_states segs) s && not (includes hide s))
  has_bar-visible start span colours hide [] s = refl
  has_bar-visible start span colours hide (g ∷ segs) s = elim (Bool-cases (str_eq g.state s)) [
    | inl same ↦
        let h_same : includes hide g.state ≡ includes hide s =
          ap (includes hide) ((eq_iff g.state s).0 same) in
        ground (arith, h_same, has_bar-visible start span colours hide segs s)
    | inr other ↦ ground (arith, has_bar-visible start span colours hide segs s)
  ]

  -- The bars of the segments that are left of a row, where the states of all of them have a colour.
  bars-coloured :
      (start span : R) (shown : JsMap ℕ) (colours : JsMap ℕ) (hide : List String)
      (segs : List (Segment R))
      → All
          (λ (g : Segment R).
            (includes hide g.state ≡ false)
            → (lookup g.state shown ≡ lookup g.state colours)
              × (is_null (lookup g.state colours) ≡ false))
          segs
      → All
          (λ (b : Bar R). (lookup b.state shown ≡ b.colour) × (is_null b.colour ≡ false))
          (map
            (bar_of start span colours)
            (filter (λ (g : Segment R). not (includes hide g.state)) segs))
  bars-coloured start span shown colours hide [] h = tt
  bars-coloured start span shown colours hide (g ∷ segs) (p, h) =
      elim (Bool-cases (includes hide g.state)) [
        | inl hidden ↦ rw hidden (bars-coloured start span shown colours hide segs h)
        | inr visible ↦ rw visible (p visible, bars-coloured start span shown colours hide segs h)
      ]

  All-among :
      (P : String → Type 0) (segs : List (Segment R))
      → ((s : String) → includes (segment_states segs) s ≡ true → P s)
      → All (λ (g : Segment R). P g.state) segs
  All-among P [] f = tt
  All-among P (g ∷ segs) f = (
    f g.state (ground (arith, eq_iff g.state g.state)),
    All-among P segs (λ s h. f s (ground arith)),
  )

  -- In a row of the timeline a state stands in the legend exactly if a bar of it is drawn, and every bar
  -- has a colour, the one that the legend gives to its state.
  pub drawn_row_lem :
      (start finish now : R) (order hide : List String) (ts : List R) (texts : List (Option String))
      (s : String)
      → let (bs, entries) = drawn_row start finish now order hide ts texts in
        (has_key entries s ≡ has_bar bs s)
        × All (λ (b : Bar R). (lookup b.state entries ≡ b.colour) × (is_null b.colour ≡ false)) bs
  unfolding drawn_row bars legend
  drawn_row_lem start finish now order hide ts texts s =
      let segs = reverse (add_samples start finish now [] ts texts) in
      let seen = segment_states segs in
      let colours = colours_of order seen in
      let listed = λ (x : String). includes seen x && not (includes hide x) in
      let entries = filter (λ (entry : String × ℕ). listed entry.0) colours in
      let P : String → Type 0 = λ x.
        (includes hide x ≡ false)
        → (lookup x entries ≡ lookup x colours) × (is_null (lookup x colours) ≡ false) in
      let each : (x : String) → includes seen x ≡ true → P x = λ x h v. (
        lookup-filter listed colours x (ground arith),
        has_key-lookup x colours ∙ rw (coloured order segs x h) refl,
      ) in
      (
        has_key-filter listed colours s
            ∙ absorb order segs s (not (includes hide s))
            ∙ sym (has_bar-visible start (finish ⊖ start) colours hide segs s),
        bars-coloured start (finish ⊖ start) entries colours hide segs (All-among P segs each),
      )
