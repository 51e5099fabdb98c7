-- ===== src/Overview/Controls/Repaint.antt =====
-- The card of controls after one rendering and after several (`renderControls` of
-- web/nasa_web/static/js/views/overview.js).
use nasa_cpp.Base.{
  NoRepeat, ℕ, ◌≡◌, refl, sym, ap, ◌∙◌, ◌≢◌, inl, inr, Bool, true, false, Option, none, some, List,
  [], ◌∷◌, map, String, All, arith, str_eq, eq_iff, Bool-cases, if◌then◌else◌,
}
use nasa_cpp.Base.Number.{Number}
use nasa_cpp.Entity.{Entity, Status}
use nasa_cpp.Format.Escape.{same_text}
use nasa_cpp.Controls.{Panel}
use nasa_cpp.Controls.Widget.{Widget}
use nasa_cpp.Overview.Controls.{
  Face, chosen, Slot, Hint, Box, patch_slot, patch, choose_slot, choose, new_slot, patch_all,
  controls_of, render, html_of, render_controls, settle_choice, key_of, is_key,
}
use nasa_cpp.Overview.Controls.Key.{NoComma}
use nasa_cpp.Overview.Controls.Order.{IsRanked, controls_of_lem}
use nasa_cpp.Overview.Controls.Patch.{
  entity_ids, IsCalm, IsKept, IsPatched, faces, full, render_lem, key_for, patch_all-cons,
}

same_text_refl : (s : List ℕ) → same_text s s ≡ true
same_text_refl [] = refl
same_text_refl (c ∷ s) = ground (arith, same_text_refl s)

module _ {R : Type 0} where
  -- What the first row of an id shows.
  abbrev pub face_of : String → List (Slot R) → Option Face
  face_of id [] = none
  face_of id (s ∷ ss) = if str_eq s.id id then some s.face else face_of id ss

  abbrev pub empty_box : Box R
  empty_box = record { key = none; slots = [] }

  -- What stands beside the widget of a row.
  abbrev pub heads : List (Slot R) → List (String × Option (Hint R))
  heads ss = map (λ (s : Slot R). (s.name, s.hint)) ss

  module _ (html : Entity R → String) where
    choose_slot-IsPatched :
        (id option : String) (ss : List (Slot R)) (es : List (Entity R))
        → IsPatched html ss es
        → IsPatched html (choose_slot id option ss) es
    choose_slot-IsPatched id option [] [] h = tt
    choose_slot-IsPatched id option [] (e ∷ es) h = h
    choose_slot-IsPatched id option (s ∷ ss) [] h = absurd h
    choose_slot-IsPatched id option (s ∷ ss) (e ∷ es) (i, m, h) =
        elim (Bool-cases (str_eq s.id id)) [
          | inl here ↦ rw here (i, m, h)
          | inr other ↦ rw other (i, m, choose_slot-IsPatched id option ss es h)
        ]

    -- Where each row has its markup, the loop changes nothing.
    patch_all_idle :
        (ss : List (Slot R)) (es : List (Entity R))
        → IsPatched html ss es
        → NoRepeat (entity_ids es)
        → patch_all html ss es ≡ ss
    unfolding patch_all
    patch_all_idle [] [] h d = refl
    patch_all_idle [] (e ∷ es) h d = absurd h
    patch_all_idle (s ∷ ss) [] h d = absurd h
    patch_all_idle (s ∷ ss) (e ∷ es) (i, m, h) (f, d) =
        let same : patch_slot s (html e) ≡ s = ground (arith, m, eq_iff (html e) (html e)) in
        patch_all-cons html s ss e es i f ∙ cc (same, patch_all_idle ss es h d)

    nil_of_patched : (ss : List (Slot R)) → IsPatched html ss [] → ss ≡ []
    nil_of_patched [] h = refl
    nil_of_patched (s ∷ ss) h = absurd h

    render_idle :
        (b : Box R) (es : List (Entity R)) (r : Bool)
        → IsPatched html b.slots es
        → NoRepeat (entity_ids es)
        → b.key ≡ some (key_for (entity_ids es) r)
        → render html b es r ≡ b
    unfolding render
    render_idle b [] r h d k =
        let none_left = nil_of_patched b.slots h in
        λ i. record { key = sym k i; slots = sym none_left i }
    render_idle b (e ∷ es) r h d k =
        let same : is_key b.key (key_of (entity_ids (e ∷ es)) r) ≡ true =
          rw k (same_text_refl (key_of (entity_ids (e ∷ es)) r)) in
        rw (same, patch_all_idle b.slots (e ∷ es) h d) refl

    face_of-choose :
        (id option : String) (ss : List (Slot R)) (f : Face)
        → face_of id ss ≡ some f
        → face_of id (choose_slot id option ss) ≡ some (chosen option)
    face_of-choose id option [] f h = ground arith
    face_of-choose id option (s ∷ ss) f h = ground (arith, face_of-choose id option ss f)

    -- A choice changes no markup that was set.
    choice_stays :
        (b : Box R) (es : List (Entity R)) (r : Bool) (id option : String) (f : Face)
        → IsPatched html b.slots es
        → NoRepeat (entity_ids es)
        → b.key ≡ some (key_for (entity_ids es) r)
        → face_of id b.slots ≡ some f
        → face_of id (render html (choose b id option) es r).slots ≡ some (chosen option)
    unfolding choose
    choice_stays b es r id option f h d k here =
        let idle =
          render_idle (choose b id option) es r (choose_slot-IsPatched id option b.slots es h) d
            k in
        ap (λ (b : Box R). face_of id b.slots) idle ∙ face_of-choose id option b.slots f here

    patch-heads : (ss : List (Slot R)) (id h : String) → heads (patch ss id h) ≡ heads ss
    patch-heads [] id h = refl
    patch-heads (s ∷ ss) id h = ground (arith, patch-heads ss id h)

    patch_all-heads :
        (ss : List (Slot R)) (es : List (Entity R)) → heads (patch_all html ss es) ≡ heads ss
    unfolding patch_all
    patch_all-heads ss [] = refl
    patch_all-heads ss (e ∷ es) =
        patch_all-heads (patch ss e.id (html e)) es ∙ patch-heads ss e.id (html e)

    render-heads :
        (b : Box R) (es : List (Entity R)) (r : Bool)
        → b.key ≡ some (key_for (entity_ids es) r)
        → es ≢ []
        → heads (render html b es r).slots ≡ heads b.slots
    unfolding render
    render-heads b [] r k ne = absurd (ne refl)
    render-heads b (e ∷ es) r k ne =
        let same : is_key b.key (key_of (entity_ids (e ∷ es)) r) ≡ true =
          rw k (same_text_refl (key_of (entity_ids (e ∷ es)) r)) in
        rw same (patch_all-heads b.slots (e ∷ es))

    new-heads :
        (b : Box R) (es : List (Entity R)) (r : Bool)
        → b.key ≡ none
        → heads (render html b es r).slots ≡ heads (map new_slot es)
    unfolding render
    new-heads b [] r k = refl
    new-heads b (e ∷ es) r k =
        let new : is_key b.key (key_of (entity_ids (e ∷ es)) r) ≡ false = rw k refl in
        rw new (patch_all-heads (map new_slot (e ∷ es)) (e ∷ es))

module _ {R : Type 0} ⦃num : Number R⦄ where
  module _ (locale : R → ℕ → String) (markup : Entity R → Widget → String) where
    -- Where the ids of the entities are distinct and without a comma, and no option has been chosen in
    -- the card since its widgets were drawn, the card, built anew or patched, has after a rendering a row
    -- for each control and no other, in the order of the ranks, with the widget as it is drawn at that
    -- moment; and it is ready for the next rendering. The names and limits beside the widgets are not
    -- compared.
    pub render_controls_lem :
        (sorts_after : String → String → Bool) (st : Status R) (c : Panel R) (b : Box R)
        (all : List (Entity R))
        → IsKept b
        → All IsCalm b.slots
        → NoRepeat (entity_ids all)
        → All NoComma (entity_ids all)
        → let b' = render_controls locale markup sorts_after st c b all in
          let controls = controls_of sorts_after all in
          (faces (html_of locale markup st c) b'.slots ≡ full (html_of locale markup st c) controls)
          × IsRanked controls
          × IsKept b'
          × All IsCalm b'.slots
    unfolding render_controls
    render_controls_lem sorts_after st c b all k calm d plain =
        let (plain', d', ranked) = controls_of_lem sorts_after NoComma all plain d in
        let (shown, kept, calm', patched, keyed) =
          render_lem (html_of locale markup st c) b (controls_of sorts_after all) st.read_only k
            calm d' plain' in
        (shown, ranked, kept, calm')

    -- If the user chooses an option of a control and the command fails while the entities are as they
    -- were, the rendering that should undo the choice leaves the option marked as the current one.
    pub failed_choice_stays :
        (sorts_after : String → String → Bool) (st : Status R) (c : Panel R) (b : Box R)
        (all : List (Entity R)) (id option : String) (f : Face)
        → IsKept b
        → All IsCalm b.slots
        → NoRepeat (entity_ids all)
        → All NoComma (entity_ids all)
        → let b' = render_controls locale markup sorts_after st c b all in
          (face_of id b'.slots ≡ some f)
          → face_of id
              (settle_choice locale markup false sorts_after st c (choose b' id option) all).slots
            ≡ some (chosen option)
    unfolding render_controls settle_choice
    failed_choice_stays sorts_after st c b all id option f k calm d plain here =
        let (plain', d', ranked) = controls_of_lem sorts_after NoComma all plain d in
        let (shown, kept, calm', patched, keyed) =
          render_lem (html_of locale markup st c) b (controls_of sorts_after all) st.read_only k
            calm d' plain' in
        choice_stays (html_of locale markup st c)
          (render (html_of locale markup st c) b (controls_of sorts_after all) st.read_only)
          (controls_of sorts_after all) st.read_only id option f patched d' keyed here

    -- From an empty card on: where the controls are rendered a second time and have the ids that they
    -- had the first time, in the same order, what stands beside their widgets is still the names and the
    -- limits of the first time.
    pub old_limits_stay :
        (sorts_after : String → String → Bool) (st st' : Status R) (c c' : Panel R)
        (all all' : List (Entity R))
        → NoRepeat (entity_ids all)
        → All NoComma (entity_ids all)
        → st'.read_only ≡ st.read_only
        → entity_ids (controls_of sorts_after all') ≡ entity_ids (controls_of sorts_after all)
        → controls_of sorts_after all' ≢ []
        → let b = render_controls locale markup sorts_after st c empty_box all in
          heads (render_controls locale markup sorts_after st' c' b all').slots
          ≡ heads (map new_slot (controls_of sorts_after all))
    unfolding render_controls
    old_limits_stay sorts_after st st' c c' all all' d plain same_ro same_ids some_left =
        let (plain', d', ranked) = controls_of_lem sorts_after NoComma all plain d in
        let controls = controls_of sorts_after all in
        let html = html_of locale markup st c in
        let b = render html empty_box controls st.read_only in
        let (shown, kept, calm, patched, keyed) =
          render_lem html empty_box controls st.read_only (inl (refl, inl refl)) tt d' plain' in
        let keyed' : b.key
            ≡ some (key_for (entity_ids (controls_of sorts_after all')) st'.read_only) =
          rw (same_ids, same_ro) keyed in
        render-heads (html_of locale markup st' c') b (controls_of sorts_after all') st'.read_only
          keyed' some_left
        ∙ new-heads html empty_box controls st.read_only refl
