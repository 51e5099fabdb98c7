-- ===== src/Overview/Controls/Patch.antt =====
-- Patching the card of controls, against building it anew (`renderControls` of
-- web/nasa_web/static/js/views/overview.js).
use nasa_cpp.Base.{
  Fresh, NoRepeat, ℕ, ◌≡◌, refl, sym, ap, ◌∙◌, ◌⊎◌, inl, inr, ◌<◌, Bool, true, false, Option, none,
  some, List, [], ◌∷◌, map, String, All, arith, str_eq, eq_iff, Bool-cases, subst, length,
}
use nasa_cpp.Entity.{Entity}
use nasa_cpp.Overview.Controls.{
  Face, empty, drawn, Slot, Box, key_of, is_key, is_html, new_slot, patch_slot, patch, patch_all,
  render,
}
use nasa_cpp.Overview.Controls.Key.{NoComma, same_text-path, key_of-path, key_of-ne-nil}

is_html-path : (o : Option String) (h : String) → is_html o h ≡ true → o ≡ some h
is_html-path none h e = ground arith
is_html-path (some x) h e = cc ((eq_iff x h).0 e)

is_key-path : (o : Option (List ℕ)) (k : List ℕ) → is_key o k ≡ true → o ≡ some k
is_key-path none k e = ground arith
is_key-path (some l) k e = ap some (same_text-path l k e)

-- The key that a rendering leaves.
abbrev pub key_for : List String → Bool → List ℕ
key_for [] r = []
key_for (id ∷ ids) r = key_of (id ∷ ids) r

module _ {R : Type 0} where
  abbrev pub slot_ids : List (Slot R) → List String
  slot_ids ss = map (λ (s : Slot R). s.id) ss

  abbrev pub entity_ids : List (Entity R) → List String
  entity_ids es = map (λ (e : Entity R). e.id) es

  length-slot_ids : (ss : List (Slot R)) → 0 < length ss → 0 < length (slot_ids ss)
  length-slot_ids [] h = h
  length-slot_ids (s ∷ ss) h = omega arith

  rows_of_ids :
      (ss : List (Slot R)) (id : String) (ids : List String)
      → slot_ids ss ≡ id ∷ ids
      → 0 < length ss
  rows_of_ids [] id ids h = ground arith
  rows_of_ids (s ∷ ss) id ids h = omega arith

  -- What a row shows is the markup that was set last.
  abbrev pub IsCalm : Slot R → Type 0
  IsCalm s = s.face ≡ elim s.html [ none ↦ empty | some h ↦ drawn h ]

  -- The rows are those that the key was made from, or there are none.
  abbrev pub IsKept : Box R → Type 0
  IsKept b =
      (b.slots ≡ []) × ((b.key ≡ none) ⊎ (b.key ≡ some []))
      ⊎ ((r : Bool) × (0 < length b.slots)
          × All NoComma (slot_ids b.slots)
          × (b.key ≡ some (key_of (slot_ids b.slots) r)))

  module _ (html : Entity R → String) where
    -- Each row has the markup of its entity.
    abbrev pub IsPatched : List (Slot R) → List (Entity R) → Type 0
    IsPatched [] [] = Unit
    IsPatched (s ∷ ss) (e ∷ es) = (s.id ≡ e.id) × (s.html ≡ some (html e)) × IsPatched ss es
    IsPatched _ _ = ⊥

    -- The rows as a full build draws them.
    abbrev pub faces : List (Slot R) → List (String × Face)
    faces ss = map (λ (s : Slot R). (s.id, s.face)) ss

    abbrev pub full : List (Entity R) → List (String × Face)
    full es = map (λ (e : Entity R). (e.id, drawn (html e))) es

    patch_slot-id : (s : Slot R) (h : String) → (patch_slot s h).id ≡ s.id
    patch_slot-id s h = ground arith

    patch_slot_lem :
        (s : Slot R) (h : String)
        → IsCalm s
        → ((patch_slot s h).html ≡ some h) × ((patch_slot s h).face ≡ drawn h)
    patch_slot_lem s h c = elim (Bool-cases (is_html s.html h)) [
      | inr other ↦ rw other (refl, refl)
      | inl same ↦ let held = is_html-path s.html h same in rw same (held, c ∙ rw held refl)
    ]

    patch_other :
        (s : Slot R) (ss : List (Slot R)) (es : List (Entity R))
        → Fresh s.id (entity_ids es)
        → patch_all html (s ∷ ss) es ≡ s ∷ patch_all html ss es
    unfolding patch_all
    patch_other s ss [] f = refl
    patch_other s ss (e ∷ es) (ne, f) =
        let other : str_eq s.id e.id ≡ false = ground (arith, eq_iff s.id e.id) in
        rw other (patch_other s (patch ss e.id (html e)) es f)

    pub patch_all-cons :
        (s : Slot R) (ss : List (Slot R)) (e : Entity R) (es : List (Entity R))
        → s.id ≡ e.id
        → Fresh e.id (entity_ids es)
        → patch_all html (s ∷ ss) (e ∷ es) ≡ patch_slot s (html e) ∷ patch_all html ss es
    unfolding patch_all
    patch_all-cons s ss e es same f =
        let here : str_eq s.id e.id ≡ true = (eq_iff s.id e.id).1 same in
        let f' : Fresh (patch_slot s (html e)).id (entity_ids es) =
          subst (λ id. Fresh id (entity_ids es)) (sym (patch_slot-id s (html e) ∙ same)) f in
        rw here (patch_other (patch_slot s (html e)) ss es f')

    -- The loop patches each row with the markup of its entity.
    patch_all-rows :
        (ss : List (Slot R)) (es : List (Entity R))
        → slot_ids ss ≡ entity_ids es
        → NoRepeat (entity_ids es)
        → All IsCalm ss
        → (faces (patch_all html ss es) ≡ full es)
          × IsPatched (patch_all html ss es) es
          × All IsCalm (patch_all html ss es)
          × (slot_ids (patch_all html ss es) ≡ entity_ids es)
    unfolding patch_all
    patch_all-rows [] [] h d c = (refl, tt, tt, refl)
    patch_all-rows [] (e ∷ es) h d c = ground arith
    patch_all-rows (s ∷ ss) [] h d c = ground arith
    patch_all-rows (s ∷ ss) (e ∷ es) h (f, d) (c, cs) =
        let same : s.id ≡ e.id = ground arith in
        let rest = patch_all-rows ss es (cc) d cs in
        let (held, shown) = patch_slot_lem s (html e) c in
        let named = patch_slot-id s (html e) ∙ same in
        rw (patch_all-cons s ss e es same f) (
          cc (named, shown, rest.0),
          (named, held, rest.1),
          (shown ∙ rw held refl, rest.2),
          cc (named, rest.3),
        )

    new_slots :
        (es : List (Entity R))
        → (slot_ids (map new_slot es) ≡ entity_ids es) × All IsCalm (map new_slot es)
    new_slots [] = (refl, tt)
    new_slots (e ∷ es) = let (ids, calm) = new_slots es in (ap (λ t. e.id ∷ t) ids, (refl, calm))

    -- A box whose key is that of some controls has their rows.
    same_set :
        (b : Box R) (e : Entity R) (es : List (Entity R)) (r : Bool)
        → IsKept b
        → All NoComma (entity_ids (e ∷ es))
        → is_key b.key (key_of (entity_ids (e ∷ es)) r) ≡ true
        → slot_ids b.slots ≡ entity_ids (e ∷ es)
    same_set b e es r (inl (nil, inl no_key)) plain h = absurd (ground arith)
    same_set b e es r (inl (nil, inr no_key)) plain h = absurd (
        key_of-ne-nil e.id (entity_ids es) r
          (cc (is_key-path b.key (key_of (entity_ids (e ∷ es)) r) h)))
    same_set b e es r (inr (r', some_rows, plain', keyed)) plain h =
        key_of-path (slot_ids b.slots) (entity_ids (e ∷ es)) r' r plain' plain
          (length-slot_ids b.slots some_rows) (omega arith)
          (cc (is_key-path b.key (key_of (entity_ids (e ∷ es)) r) h))

    patched-IsKept :
        (ss : List (Slot R)) (e : Entity R) (es : List (Entity R)) (r : Bool)
        → slot_ids ss ≡ entity_ids (e ∷ es)
        → All NoComma (entity_ids (e ∷ es))
        → IsKept (record { key = some (key_of (entity_ids (e ∷ es)) r); slots = ss })
    patched-IsKept ss e es r ids plain = inr (
      r,
      rows_of_ids ss e.id (entity_ids es) ids,
      subst (All NoComma) (sym ids) plain,
      ap (λ t. some (key_of t r)) (sym ids),
    )

    -- A box that was kept is drawn as a full build draws it, and kept.
    pub render_lem :
        (b : Box R) (es : List (Entity R)) (r : Bool)
        → IsKept b
        → All IsCalm b.slots
        → NoRepeat (entity_ids es)
        → All NoComma (entity_ids es)
        → let b' = render html b es r in
          (faces b'.slots ≡ full es)
          × IsKept b'
          × All IsCalm b'.slots
          × IsPatched b'.slots es
          × (b'.key ≡ some (key_for (entity_ids es) r))
    unfolding render
    render_lem b [] r k c d p = (refl, inl (refl, inr refl), tt, tt, refl)
    render_lem b (e ∷ es) r k c d p =
        let key = key_of (entity_ids (e ∷ es)) r in
        elim (Bool-cases (is_key b.key key)) [
          | inl same ↦
              let (shown, patched, calm, ids) =
                patch_all-rows b.slots (e ∷ es) (same_set b e es r k p same) d c in
              let kept = patched-IsKept (patch_all html b.slots (e ∷ es)) e es r ids p in
              let keyed = is_key-path b.key key same in
              rw same (shown, rw keyed kept, calm, patched, keyed)
          | inr new ↦
              let (ids', calm') = new_slots (e ∷ es) in
              let (shown, patched, calm, ids) =
                patch_all-rows (map new_slot (e ∷ es)) (e ∷ es) ids' d calm' in
              let kept =
                patched-IsKept (patch_all html (map new_slot (e ∷ es)) (e ∷ es)) e es r ids p in
              rw new (shown, kept, calm, patched, refl)
        ]
