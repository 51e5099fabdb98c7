-- ===== src/Charts/Timeline/Segments.antt =====
-- The segments of a row on the time axis (`timeline` of web/nasa_web/static/js/charts.js).
use nasa_cpp.Base.{◌≡◌, false, ◌&&◌, Option, List, [], ◌∷◌, String, arith, str_eq}
use nasa_cpp.Base.Number.{Number, IsOrdered, ◌⊖◌, ◌≼◌, ◌≺◌, max_num, min_num, abs_num}
use nasa_cpp.Charts.Timeline.{Segment, add_segment, add_samples, first_text, other_texts}
use nasa_cpp.Base.Extremes.{le_max_left, le_max_right, min_le_left, min_le_right}

module _ {R : Type 0} ⦃num : Number R⦄ where
  abbrev pub InRange : R → R → Segment R → Type 0
  InRange start finish s = (start ≼ s.a) × (s.a ≺ s.b) × (s.b ≼ finish)

  -- `s` comes after `o`, and is not of the same state without a pause of a second.
  abbrev pub Follows : Segment R → List (Segment R) → Type 0
  Follows s [] = Unit
  Follows s (o ∷ segs) =
      (o.b ≼ s.a)
      × ((str_eq o.state s.state && num.lt (abs_num (o.b ⊖ s.a)) (num.of_nat 1)) ≡ false)

  -- The last segment stands first.
  abbrev pub IsTiled : R → R → List (Segment R) → Type 0
  IsTiled start finish [] = Unit
  IsTiled start finish (s ∷ segs) =
      InRange start finish s × Follows s segs × IsTiled start finish segs

  abbrev EndsBy : List (Segment R) → R → Type 0
  EndsBy [] t = Unit
  EndsBy (s ∷ segs) t = s.b ≼ t

  abbrev Before : List (Segment R) → List R → Type 0
  Before segs [] = Unit
  Before segs (t ∷ ts) = EndsBy segs t

  abbrev pub IsSorted : List R → Type 0
  IsSorted [] = Unit
  IsSorted (t ∷ []) = Unit
  IsSorted (t ∷ u ∷ ts) = (t ≼ u) × IsSorted (u ∷ ts)

  module _ (laws : IsOrdered R) where
    open laws use {le_refl, le_trans, le_total, lt-eq-not-le}

    add_segment-IsTiled :
        (start finish : R) (segs : List (Segment R)) (state : String) (a b : R)
        → IsTiled start finish segs
        → EndsBy segs a
        → start ≼ a
        → b ≼ finish
        → IsTiled start finish (add_segment segs state a b)
    unfolding add_segment
    add_segment-IsTiled start finish [] state a b h e lo hi = ground (arith, lt-eq-not-le a b)
    add_segment-IsTiled start finish (s ∷ []) state a b h e lo hi = ground (
      arith,
      lt-eq-not-le a b,
      lt-eq-not-le s.a s.b,
      lt-eq-not-le s.a b,
      le_trans b s.a s.b,
      le_trans b s.a a,
      le_trans s.b a b,
      le_trans s.b b s.a,
      le_total a b,
    )
    add_segment-IsTiled start finish (s ∷ o ∷ segs) state a b h e lo hi = ground (
      arith,
      lt-eq-not-le a b,
      lt-eq-not-le s.a s.b,
      lt-eq-not-le s.a b,
      le_trans b s.a s.b,
      le_trans b s.a a,
      le_trans s.b a b,
      le_trans s.b b s.a,
      le_total a b,
    )

    add_segment-EndsBy :
        (segs : List (Segment R)) (state : String) (a b t u : R)
        → EndsBy segs t
        → t ≼ u
        → b ≼ u
        → EndsBy (add_segment segs state a b) u
    unfolding add_segment
    add_segment-EndsBy [] state a b t u e le hi = ground arith
    add_segment-EndsBy (s ∷ segs) state a b t u e le hi = ground (arith, le_trans s.b t u)

    EndsBy-le : (segs : List (Segment R)) (t u : R) → EndsBy segs t → t ≼ u → EndsBy segs u
    EndsBy-le [] t u e h = tt
    EndsBy-le (s ∷ segs) t u e h = le_trans s.b t u e h

    add_samples-IsTiled :
        (start finish now : R) (segs : List (Segment R)) (ts : List R)
        (texts : List (Option String))
        → IsSorted ts
        → IsTiled start finish segs
        → Before segs ts
        → IsTiled start finish (add_samples start finish now segs ts texts)
    unfolding add_samples
    add_samples-IsTiled start finish now segs [] texts h tiled before = tiled
    add_samples-IsTiled start finish now segs (t ∷ []) texts h tiled before =
        add_segment-IsTiled start finish segs (first_text texts) (max_num start t)
          (min_num finish (min_num finish now)) tiled
          (EndsBy-le segs t (max_num start t) before (le_max_right laws start t))
          (le_max_left laws start t) (min_le_left laws finish (min_num finish now))
    add_samples-IsTiled start finish now segs (t ∷ u ∷ ts) texts (le, h) tiled before =
        let a = max_num start t in
        let b = min_num finish u in
        add_samples-IsTiled start finish now (add_segment segs (first_text texts) a b) (u ∷ ts)
          (other_texts texts) h
          (add_segment-IsTiled start finish segs (first_text texts) a b tiled
            (EndsBy-le segs t a before (le_max_right laws start t)) (le_max_left laws start t)
            (min_le_left laws finish u))
          (add_segment-EndsBy segs (first_text texts) a b t u before le
            (min_le_right laws finish u))

    -- If the samples come in order of time, the segments lie inside the shown range, each is longer
    -- than nothing, each begins where the one before ends or later, and two neighbours of the same
    -- state are a second or more apart, so that what could be joined has been.
    pub segments-IsTiled :
        (start finish now : R) (ts : List R) (texts : List (Option String))
        → IsSorted ts
        → IsTiled start finish (add_samples start finish now [] ts texts)
    segments-IsTiled start finish now [] texts h =
        add_samples-IsTiled start finish now [] [] texts h tt tt
    segments-IsTiled start finish now (t ∷ ts) texts h =
        add_samples-IsTiled start finish now [] (t ∷ ts) texts h tt tt
