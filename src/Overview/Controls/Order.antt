-- ===== src/Overview/Controls/Order.antt =====
-- The controls in their order (`renderControls` of web/nasa_web/static/js/views/overview.js).
use nasa_cpp.Base.{
  Fresh, NoRepeat, ℕ, ltb, not, if◌then◌else◌, ◌≡◌, sym, inl, inr, ◌≤◌, ◌≢◌, Bool, true, false,
  List, [], ◌∷◌, String, All, All-map, arith, filter, str_eq, Bool-cases,
}
use nasa_cpp.Entity.{Entity}
use nasa_cpp.Overview.Controls.{rank, in_order, insert_control, sort_controls, controls_of}
use nasa_cpp.Overview.Controls.Patch.{entity_ids}

by_rank :
    (m n : ℕ) (t : Bool)
    → let b = if ltb m n then true else if ltb n m then false else t in
      ((b ≡ true) → m ≤ n) × ((b ≡ false) → n ≤ m)
by_rank m n t = (λ h. ground arith, λ h. ground arith)

module _ {R : Type 0} where
  -- No entity has a lower rank than one before it.
  abbrev pub IsRanked : List (Entity R) → Type 0
  IsRanked [] = Unit
  IsRanked (e ∷ es) = All (λ (f : Entity R). rank e.name ≤ rank f.name) es × IsRanked es

  filter-ids :
      (Q : String → Type 0) (p : Entity R → Bool) (es : List (Entity R))
      → All Q (entity_ids es)
      → All Q (entity_ids (filter p es))
  filter-ids Q p [] h = tt
  filter-ids Q p (e ∷ es) (q, h) = elim (Bool-cases (p e)) [
    | inl kept ↦ rw kept (q, filter-ids Q p es h)
    | inr left ↦ rw left (filter-ids Q p es h)
  ]

  filter-NoRepeat :
      (p : Entity R → Bool) (es : List (Entity R))
      → NoRepeat (entity_ids es)
      → NoRepeat (entity_ids (filter p es))
  filter-NoRepeat p [] d = tt
  filter-NoRepeat p (e ∷ es) (f, d) = elim (Bool-cases (p e)) [
    | inl kept ↦ rw kept (filter-ids (λ j. e.id ≢ j) p es f, filter-NoRepeat p es d)
    | inr left ↦ rw left (filter-NoRepeat p es d)
  ]

  module _ (sorts_after : String → String → Bool) where
    insert_control-ids :
        (Q : String → Type 0) (e : Entity R) (es : List (Entity R))
        → Q e.id
        → All Q (entity_ids es)
        → All Q (entity_ids (insert_control sorts_after e es))
    insert_control-ids Q e [] q h = (q, tt)
    insert_control-ids Q e (f ∷ fs) q (p, h) = elim (Bool-cases (in_order sorts_after e f)) [
      | inl first ↦ rw first (q, (p, h))
      | inr later ↦ rw later (p, insert_control-ids Q e fs q h)
    ]

    insert_control-NoRepeat :
        (e : Entity R) (es : List (Entity R))
        → Fresh e.id (entity_ids es)
        → NoRepeat (entity_ids es)
        → NoRepeat (entity_ids (insert_control sorts_after e es))
    insert_control-NoRepeat e [] n d = (tt, tt)
    insert_control-NoRepeat e (f ∷ fs) (ne, n) (m, d) =
        elim (Bool-cases (in_order sorts_after e f)) [
          | inl first ↦ rw first ((ne, n), (m, d))
          | inr later ↦ rw later (
            insert_control-ids (λ j. f.id ≢ j) e fs (λ same. ne (sym same)) m,
            insert_control-NoRepeat e fs n d,
          )
        ]

    in_order-rank :
        (e f : Entity R)
        → ((in_order sorts_after e f ≡ true) → rank e.name ≤ rank f.name)
          × ((in_order sorts_after e f ≡ false) → rank f.name ≤ rank e.name)
    in_order-rank e f = by_rank (rank e.name) (rank f.name) (not (sorts_after e.name f.name))

    insert_control-All :
        (P : Entity R → Type 0) (e : Entity R) (es : List (Entity R))
        → P e
        → All P es
        → All P (insert_control sorts_after e es)
    insert_control-All P e [] q h = (q, tt)
    insert_control-All P e (f ∷ fs) q (p, h) = elim (Bool-cases (in_order sorts_after e f)) [
      | inl first ↦ rw first (q, (p, h))
      | inr later ↦ rw later (p, insert_control-All P e fs q h)
    ]

    insert_control-IsRanked :
        (e : Entity R) (es : List (Entity R))
        → IsRanked es
        → IsRanked (insert_control sorts_after e es)
    insert_control-IsRanked e [] h = (tt, tt)
    insert_control-IsRanked e (f ∷ fs) (low, h) = elim (Bool-cases (in_order sorts_after e f)) [
      | inl first ↦
          let le = (in_order-rank e f).0 first in
          let all_le =
            All-map (λ (g : Entity R). rank f.name ≤ rank g.name)
              (λ (g : Entity R). rank e.name ≤ rank g.name) (λ g k. omega arith) fs low in
          rw first ((le, all_le), (low, h))
      | inr later ↦
          let le = (in_order-rank e f).1 later in
          rw later (
            insert_control-All (λ (g : Entity R). rank f.name ≤ rank g.name) e fs le low,
            insert_control-IsRanked e fs h,
          )
    ]

    sort_controls-ids :
        (Q : String → Type 0) (es : List (Entity R))
        → All Q (entity_ids es)
        → All Q (entity_ids (sort_controls sorts_after es))
    sort_controls-ids Q [] h = tt
    sort_controls-ids Q (e ∷ es) (q, h) =
        insert_control-ids Q e (sort_controls sorts_after es) q (sort_controls-ids Q es h)

    sort_controls-NoRepeat :
        (es : List (Entity R))
        → NoRepeat (entity_ids es)
        → NoRepeat (entity_ids (sort_controls sorts_after es))
    sort_controls-NoRepeat [] d = tt
    sort_controls-NoRepeat (e ∷ es) (f, d) =
        insert_control-NoRepeat e (sort_controls sorts_after es)
          (sort_controls-ids (λ j. e.id ≢ j) es f) (sort_controls-NoRepeat es d)

    sort_controls-IsRanked : (es : List (Entity R)) → IsRanked (sort_controls sorts_after es)
    sort_controls-IsRanked [] = tt
    sort_controls-IsRanked (e ∷ es) =
        insert_control-IsRanked e (sort_controls sorts_after es) (sort_controls-IsRanked es)

    -- The controls keep what holds of the ids of all entities, and come in the order of their ranks.
    pub controls_of_lem :
        (Q : String → Type 0) (all : List (Entity R))
        → All Q (entity_ids all)
        → NoRepeat (entity_ids all)
        → All Q (entity_ids (controls_of sorts_after all))
          × NoRepeat (entity_ids (controls_of sorts_after all))
          × IsRanked (controls_of sorts_after all)
    unfolding controls_of
    controls_of_lem Q all h d =
        let is_control = λ (e : Entity R). str_eq e.category "control" in
        let some_of = filter is_control all in
        (
          sort_controls-ids Q some_of (filter-ids Q is_control all h),
          sort_controls-NoRepeat some_of (filter-NoRepeat is_control all d),
          sort_controls-IsRanked some_of,
        )
