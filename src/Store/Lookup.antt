-- ===== src/Store/Lookup.antt =====
-- What the readers of store.js find: after a snapshot, and after a state message.
use nasa_cpp.Base.{
  Bool-cases, length-append, ℕ, ◌<◌, ◌≡◌, refl, ◌∙◌, inl, inr, Option, none, some, List, [], ◌∷◌,
  ◌++◌, String, JsMap, lookup, insert, length, get_elem?, arith, All, All-map, str_eq, eq_iff,
  if◌then◌else◌, lookup-insert, insert-All, lookup-All, lookup-entry, get_elem?-lt,
  get_elem?-append_left, get_elem?-append_end, get_elem?-set_self, get_elem?-set_ne, Option-cases,
}
use native.Mathlib.Decide.{ℕ_discrete}
use nasa_cpp.Entity.{Entity, Status}
use nasa_cpp.Store.{
  Store, Message, deref, by_id, write_state, add_entity, add_entities, set_entities, on_message,
  ent,
}
use nasa_cpp.Store.Coherence.{IsCoherent, NameOk, IdOk}

-- The last entity of a list for which a text computed from it is `k`.
abbrev pub last_with :
    {R : Type 0} → (Entity R → String) → String → List (Entity R) → Option (Entity R)
last_with key k [] = none
last_with key k (e ∷ es) = elim (last_with key k es) [
  | some o ↦ some o
  | none ↦ if str_eq (key e) k then some e else none
]

-- Every reference of a map is to an object of the list.
abbrev Fits : {R : Type 0} → List (Entity R) → JsMap ℕ → Type 0
Fits objects m = All (λ (a : String × ℕ). a.1 < length objects) m

module _ {R : Type 0} where
  Fits-insert :
      (objects : List (Entity R)) (k : String) (e : Entity R) (m : JsMap ℕ)
      → Fits objects m
      → Fits (objects ++ e ∷ []) (insert k (length objects) m)
  Fits-insert objects k e m h =
      insert-All (λ (a : String × ℕ). a.1 < length (objects ++ e ∷ [])) k (length objects) m
        (All-map (λ (a : String × ℕ). a.1 < length objects)
          (λ (a : String × ℕ). a.1 < length (objects ++ e ∷ []))
          (λ a lt. omega (arith, length-append objects (e ∷ []))) m h)
        (omega (arith, length-append objects (e ∷ [])))

  deref-insert :
      (objects : List (Entity R)) (k j : String) (e : Entity R) (m : JsMap ℕ)
      → Fits objects m
      → deref (objects ++ e ∷ []) (lookup j (insert k (length objects) m))
        ≡ (if str_eq k j then some e else deref objects (lookup j m))
  deref-insert objects k j e m h =
      rw (lookup-insert k j (length objects) m) (elim (Bool-cases (str_eq k j)) [
        | inl same ↦ rw same (get_elem?-append_end objects e)
        | inr other ↦ rw other (elim (Option-cases (lookup j m)) [
          | inl missing ↦ rw missing
          | inr (p, found) ↦
              let lt : p < length objects = lookup-All (λ p. p < length objects) j m h found in
              rw found (get_elem?-append_left objects (e ∷ []) p lt)
        ])
      ])

module _ {R : Type 0} (lower : String → String) where
  -- A later entity hides the objects of before.
  abbrev latest : Option (Entity R) → Option (Entity R) → Option (Entity R)
  latest none old = old
  latest (some e) old = some e

  by_id-add_entities :
      (s : Store R) (es : List (Entity R)) (k : String)
      → Fits s.objects s.entities
      → by_id (add_entities lower s es) k ≡ latest (last_with (λ e. e.id) k es) (by_id s k)
  unfolding add_entities by_id
  by_id-add_entities s [] k h = refl
  by_id-add_entities s (e ∷ es) k h = ground (
    arith,
    by_id-add_entities (add_entity lower s e) es k (Fits-insert s.objects e.id e s.entities h),
    deref-insert s.objects e.id k e s.entities h,
  )

  ent-add_entities :
      (s : Store R) (es : List (Entity R)) (name : String)
      → Fits s.objects s.by_name
      → ent lower (add_entities lower s es) name
        ≡ latest (last_with (λ e. lower e.name) (lower name) es) (ent lower s name)
  unfolding add_entities ent
  ent-add_entities s [] name h = refl
  ent-add_entities s (e ∷ es) name h = ground (
    arith,
    ent-add_entities (add_entity lower s e) es name
        (Fits-insert s.objects (lower e.name) e s.by_name h),
    deref-insert s.objects (lower e.name) (lower name) e s.by_name h,
  )

  -- After a snapshot, `entities.get(id)` and `ent(name)` give the last entity of the snapshot with
  -- that id, and with that name up to case, and nothing of what the store held before.
  pub snapshot_lookup :
      (s : Store R) (list : List (Entity R)) (st : Status R) (id name : String)
      → let s' = (on_message lower s (Message.snapshot list st)).0 in
        (by_id s' id ≡ last_with (λ e. e.id) id list)
        × (ent lower s' name ≡ last_with (λ e. lower e.name) (lower name) list)
  unfolding on_message set_entities by_id ent
  snapshot_lookup s list st id name =
      let cleared : Store R = record s { entities = []; by_name = [] } in
      (
        by_id-add_entities cleared list id tt ∙ latest-none _,
        ent-add_entities cleared list name tt ∙ latest-none _,
      )
    where
      latest-none : (o : Option (Entity R)) → latest o none ≡ o
      latest-none none = refl
      latest-none (some e) = refl

  abbrev Held : Store R → ℕ → Type 0
  Held s p = (e : Entity R) × (get_elem? s.objects p ≡ some e) × (lookup e.id s.entities ≡ some p)

  -- The entity of a name, once a state message has arrived for `id`.
  abbrev pub after_state :
      String → Option R → Option String → R → Option (Entity R) → Option (Entity R)
  after_state id value text ts none = none
  after_state id value text ts (some e) =
      if str_eq e.id id
      then some (record e { value = value; text = text; updated = some ts })
      else some e

  -- A state message for an id changes what `ent` gives for every name of that entity, and of no
  -- other entity: both maps share the object. If no entity has the id, nothing changes.
  pub ent-state :
      (s : Store R) (id : String) (value : Option R) (text : Option String) (ts : R) (name : String)
      → IsCoherent lower s []
      → ent lower (on_message lower s (Message.state id value text ts)).0 name
        ≡ after_state id value text ts (ent lower s name)
  unfolding on_message write_state ent
  ent-state s id value text ts name c = elim (Option-cases (lookup (lower name) s.by_name)) [
    | inl unnamed ↦ elim (Option-cases (lookup id s.entities)) [
      | inl missing ↦ ground arith
      | inr (p, found) ↦ elim (Option-cases (get_elem? s.objects p)) [
        | inl gone ↦ ground arith
        | inr (o, at) ↦ ground arith
      ]
    ]
    | inr (q, named) ↦
        let (e, at, held) =
          lookup-All (Held s) (lower name) s.by_name
            (All-map (NameOk lower s []) (λ a. Held s a.1) (λ a h. (h.0, h.1, h.2)) s.by_name
              c.names)
            named in
        elim (Option-cases (lookup id s.entities)) [
          | inl missing ↦ ground (arith, eq_iff e.id id)
          | inr (p, found) ↦
              let (o, there, same) = lookup-entry (IdOk s) id s.entities c.ids found in
              elim (ℕ_discrete p q) [
                | yes p≡q ↦ ground (
                  arith,
                  eq_iff e.id id,
                  get_elem?-set_self s.objects q
                      (record e { value = value; text = text; updated = some ts })
                      (get_elem?-lt s.objects q at),
                )
                | no p≢q ↦ ground (
                  arith,
                  eq_iff e.id id,
                  get_elem?-set_ne s.objects p q
                      (record o { value = value; text = text; updated = some ts }) p≢q,
                )
              ]
        ]
  ]
