-- ===== src/Views/History/Past.antt =====
-- Where the range of web/nasa_web/static/js/views/history.js ends over time.
use nasa_cpp.Base.{◌≡◌, inl, inr, Option, none, some, List, [], ◌∷◌, arith, or_else, Bool-cases}
use nasa_cpp.Base.Number.{Number, IsRounded, ◌⊕◌, ◌⊖◌, ◌≼◌}
use nasa_cpp.Views.History.{Range, Move, pick, earlier, later, zoom, after_later, move, range}

module _ {R : Type 0} ⦃num : Number R⦄ where
  abbrev pub EndsBy : R → Option R → Type 0
  EndsBy now none = Unit
  EndsBy now (some e) = e ≼ now

  -- A page that has a span of some length, and does not end after `now`.
  pub record IsPast (now : R) (r : Range R) : Type 0 where
    pub long : num.of_nat 0 ≼ r.span
    pub ended : EndsBy now r.finish

  -- What the page offers: spans of some length, and charts that end by now.
  abbrev pub IsOffered : R → Move R → Type 0
  IsOffered now (pick s) = num.of_nat 0 ≼ s
  IsOffered now (zoom a b) = b ≼ now
  IsOffered now _ = Unit

  -- The page over a series of moves, each at its own time.
  unfoldable pub moves : Range R → List (R × Move R) → Range R
  moves r [] = r
  moves r ((now, m) ∷ ms) = moves (move now r m) ms

  -- Time does not run backwards from `t` to `finish`.
  abbrev pub IsTimely : R → List (R × Move R) → R → Type 0
  IsTimely t [] finish = t ≼ finish
  IsTimely t ((now, m) ∷ ms) finish = (t ≼ now) × IsOffered now m × IsTimely now ms finish

  module _ (laws : IsRounded R) where
    open laws use {ordered, of_nat_mono, sub_anti, sub_zero}
    open ordered use {le_refl, le_trans, le_total, lt-eq-not-le}

    sub_le : (x y : R) → num.of_nat 0 ≼ y → x ⊖ y ≼ x
    sub_le x y h = let less = sub_anti x (num.of_nat 0) y h in rw (sub_zero x) at less

    EndsBy-le : (t now : R) (o : Option R) → t ≼ now → EndsBy t o → EndsBy now o
    EndsBy-le t now none le h = tt
    EndsBy-le t now (some e) le h = le_trans e t now h le

    or_else-EndsBy : (now : R) (o : Option R) → EndsBy now o → or_else o now ≼ now
    or_else-EndsBy now none h = le_refl now
    or_else-EndsBy now (some e) h = h

    after_later-EndsBy : (now x : R) → EndsBy now (after_later now x)
    after_later-EndsBy now x = elim (Bool-cases (num.le (now ⊖ num.of_nat 60) x)) [
      | inl near ↦ rw near tt
      | inr far ↦
          let minute = sub_le now (num.of_nat 60) (of_nat_mono 0 60 (omega arith)) in
          let before : x ≼ now ⊖ num.of_nat 60 = ground (arith, le_total x (now ⊖ num.of_nat 60)) in
          rw far (le_trans x (now ⊖ num.of_nat 60) now before minute)
    ]

    move-IsPast :
        (t now : R) (r : Range R) (m : Move R)
        → t ≼ now
        → IsOffered now m
        → IsPast t r
        → IsPast now (move now r m)
    unfolding move
    move-IsPast t now r (pick s) le o h = record { long = o; ended = tt }
    move-IsPast t now r earlier le o h =
        let e = or_else r.finish now in
        let by_now = or_else-EndsBy now r.finish (EndsBy-le t now r.finish le h.ended) in
        record {
          long = h.long;
          ended = le_trans (e ⊖ r.span) e now (sub_le e r.span h.long) by_now;
        }
    move-IsPast t now r later le o h = record {
      long = h.long;
      ended = after_later-EndsBy now (or_else r.finish now ⊕ r.span);
    }
    move-IsPast t now r (zoom a b) le o h = record {
      long = ground (
        arith,
        of_nat_mono 0 300 (omega arith),
        lt-eq-not-le (num.of_nat 300) (b ⊖ a),
        le_total (num.of_nat 300) (b ⊖ a),
        le_trans (num.of_nat 0) (num.of_nat 300) (b ⊖ a),
      );
      ended = o;
    }

    moves-IsPast :
        (t finish : R) (r : Range R) (ms : List (R × Move R))
        → IsTimely t ms finish
        → IsPast t r
        → IsPast finish (moves r ms)
    unfolding moves
    moves-IsPast t finish r [] le h = record {
      long = h.long;
      ended = EndsBy-le t finish r.finish le h.ended;
    }
    moves-IsPast t finish r ((now, m) ∷ ms) h' h =
        moves-IsPast now finish (move now r m) ms h'.2 (move-IsPast t now r m h'.0 h'.1 h)

    -- Whatever buttons are pressed and charts are zoomed, in whatever order as time goes on, the range
    -- that is asked of the server ends by the present and does not begin after its end.
    pub moves-range :
        (t now : R) (r : Range R) (ms : List (R × Move R))
        → IsPast t r
        → IsTimely t ms now
        → ((range now (moves r ms)).1 ≼ now)
          × ((range now (moves r ms)).0 ≼ (range now (moves r ms)).1)
    unfolding range
    moves-range t now r ms h timely =
        let past = moves-IsPast t now r ms timely h in
        let r' = moves r ms in
        (or_else-EndsBy now r'.finish past.ended, sub_le (or_else r'.finish now) r'.span past.long)

    -- Going one step back and, within a minute, one step forward again follows the present as
    -- before, where the step back loses no digit.
    later-earlier :
        (now now' : R) (r : Range R)
        → r.finish ≡ none
        → (now ⊖ r.span) ⊕ r.span ≡ now
        → now' ⊖ num.of_nat 60 ≼ now
        → move now' (move now r earlier) later ≡ r
    unfolding move
    later-earlier now now' r live exact soon = ground arith
