-- ===== src/Charts/Timeline/Colours.antt =====
-- The colours of the states of a row (`timeline` of web/nasa_web/static/js/charts.js).
use nasa_cpp.Base.{
  Fresh, NoRepeat, ℕ, ◌+◌, ◌%◌, ◌≤◌, ◌<◌, ◌≡◌, refl, ◌≢◌, inl, inr, none, some, List, [], ◌∷◌,
  String, JsMap, lookup, insert, length, arith, str_eq, eq_iff, lookup-insert, Option-cases,
  Bool-cases,
}
use nasa_cpp.Charts.Timeline.{palette_size, order_colours, add_colours, colours_of}

-- Each entry has the colour of its place.
abbrev Indexed : ℕ → JsMap ℕ → Type 0
Indexed i [] = Unit
Indexed i ((k, c) ∷ m) = (c ≡ i % palette_size) × Indexed (i + 1) m

insert_absent-Indexed :
    (i : ℕ) (k : String) (c : ℕ) (m : JsMap ℕ)
    → lookup k m ≡ none
    → c ≡ (i + length m) % palette_size
    → Indexed i m
    → Indexed i (insert k c m)
insert_absent-Indexed i k c [] h e d = (omega arith, tt)
insert_absent-Indexed i k c ((j, b) ∷ m) h e (d, ds) = elim (Bool-cases (str_eq j k)) [
  | inl same ↦ absurd (ground arith)
  | inr other ↦ rw other (d, insert_absent-Indexed (i + 1) k c m (rw other at h) (omega arith) ds)
]

length-insert_absent :
    (k : String) (c : ℕ) (m : JsMap ℕ) → lookup k m ≡ none → length (insert k c m) ≡ length m + 1
length-insert_absent k c [] h = omega arith
length-insert_absent k c ((j, b) ∷ m) h = ground (arith, length-insert_absent k c m)

-- None of some texts is a key.
abbrev Unused : List String → JsMap ℕ → Type 0
Unused [] m = Unit
Unused (s ∷ order) m = (lookup s m ≡ none) × Unused order m

Unused-nil : (order : List String) → Unused order []
Unused-nil [] = tt
Unused-nil (s ∷ order) = (refl, Unused-nil order)

Unused-insert :
    (s : String) (c : ℕ) (order : List String) (m : JsMap ℕ)
    → Fresh s order
    → Unused order m
    → Unused order (insert s c m)
Unused-insert s c [] m f u = tt
Unused-insert s c (o ∷ order) m (ne, f) (absent, u) =
    (ground (arith, lookup-insert s o c m, eq_iff s o), Unused-insert s c order m f u)

order_colours-Indexed :
    (i : ℕ) (order : List String) (m : JsMap ℕ)
    → NoRepeat order
    → Unused order m
    → i ≡ length m
    → Indexed 0 m
    → Indexed 0 (order_colours i order m)
unfolding order_colours
order_colours-Indexed i [] m r u e d = d
order_colours-Indexed i (s ∷ order) m (f, r) (absent, u) e d =
    let c = i % palette_size in
    order_colours-Indexed (i + 1) order (insert s c m) r (Unused-insert s c order m f u)
      (omega (arith, length-insert_absent s c m absent))
      (insert_absent-Indexed 0 s c m absent (omega arith) d)

add_colours-Indexed :
    (m : JsMap ℕ) (seen : List String) → Indexed 0 m → Indexed 0 (add_colours m seen)
unfolding add_colours
add_colours-Indexed m [] d = d
add_colours-Indexed m (s ∷ seen) d = elim (Option-cases (lookup s m)) [
  | inl absent ↦ rw absent (
      add_colours-Indexed (insert s (length m % palette_size) m) seen
        (insert_absent-Indexed 0 s (length m % palette_size) m absent (omega arith) d))
  | inr (c, found) ↦ rw found (add_colours-Indexed m seen d)
]

colour_range :
    (i : ℕ) (m : JsMap ℕ) (k : String) (c : ℕ)
    → Indexed i m
    → i + length m ≤ palette_size
    → lookup k m ≡ some c
    → (i ≤ c) × (c < i + length m)
colour_range i [] k c d fits e = cc
colour_range i ((j, b) ∷ m) k c (d, ds) fits e = elim (Bool-cases (str_eq j k)) [
  | inl same ↦ ground arith
  | inr other ↦
      let below = colour_range (i + 1) m k c ds (omega arith) (rw other at e) in omega arith
]

distinct_colours :
    (i : ℕ) (m : JsMap ℕ) (k l : String) (c : ℕ)
    → Indexed i m
    → i + length m ≤ palette_size
    → lookup k m ≡ some c
    → lookup l m ≡ some c
    → k ≡ l
distinct_colours i [] k l c d fits e f = cc
distinct_colours i ((j, b) ∷ m) k l c (d, ds) fits e f = elim (Bool-cases (str_eq j k)) [
  | inl here ↦ elim (Bool-cases (str_eq j l)) [
    | inl there ↦ ground (arith, eq_iff j k, eq_iff j l)
    | inr other ↦
        let above = colour_range (i + 1) m l c ds (omega arith) (rw other at f) in
        absurd (ground arith)
  ]
  | inr other ↦ elim (Bool-cases (str_eq j l)) [
    | inl there ↦
        let above = colour_range (i + 1) m k c ds (omega arith) (rw other at e) in
        absurd (ground arith)
    | inr another ↦
        distinct_colours (i + 1) m k l c ds (omega arith) (rw other at e) (rw another at f)
  ]
]

-- Where the given order names no state twice, and the states need no more colours than the palette
-- has, two different states of one row have different colours.
pub colours_of-distinct :
    (order seen : List String) (k l : String) (c d : ℕ)
    → NoRepeat order
    → length (colours_of order seen) ≤ palette_size
    → lookup k (colours_of order seen) ≡ some c
    → lookup l (colours_of order seen) ≡ some d
    → k ≢ l
    → c ≢ d
unfolding colours_of
colours_of-distinct order seen k l c d r fits e f other =
    let indexed =
      add_colours-Indexed (order_colours 0 order []) seen
        (order_colours-Indexed 0 order [] r (Unused-nil order) refl tt) in
    λ same.
      other (distinct_colours 0 (colours_of order seen) k l c indexed (omega arith) e (rw same f))
