-- ===== src/Store/Coherence.antt =====
-- What the two maps of store.js hold: after a snapshot, and while state messages change entities.
use nasa_cpp.Base.{
  ℕ, ◌≡◌, refl, subst, ◌∙◌, ◌≢◌, inl, inr, Option, some, List, [], ◌∷◌, String, lookup, length,
  get_elem?, set, arith, All, All-map, eq_iff, eq_refl, lookup-insert, insert-All, get_elem?-lt,
  get_elem?-append_left, get_elem?-append_end, get_elem?-set_self, get_elem?-set_ne, Option-cases,
}
use native.Mathlib.Decide.{ℕ_discrete}
use nasa_cpp.Entity.{Entity}
use nasa_cpp.Store.{Store, Message, write_state, add_entity, add_entities, set_entities, on_message}

-- No two entities have one id.
abbrev pub Distinct : {R : Type 0} → List (Entity R) → Type 0
Distinct [] = Unit
Distinct (e ∷ es) = All (λ (o : Entity _). e.id ≢ o.id) es × Distinct es

module _ {R : Type 0} where
  get_elem?-set_kept :
      (xs : List (Entity R)) (p q : ℕ) (e e' : Entity R) {o : Entity R}
      → get_elem? xs p ≡ some e
      → get_elem? xs q ≡ some o
      → e'.id ≡ e.id
      → e'.name ≡ e.name
      → (o' : Entity R) × (get_elem? (set xs p e') q ≡ some o')
        × (o'.id ≡ o.id)
        × (o'.name ≡ o.name)
  get_elem?-set_kept xs p q e e' {o} found at key name = elim (ℕ_discrete p q) [
    | yes same ↦
        let e≡o : e ≡ o = cc in
        (
          e',
          subst (λ k. get_elem? (set xs p e') k ≡ some e') same
              (get_elem?-set_self xs p e' (get_elem?-lt xs p found)),
          cc,
          cc,
        )
    | no other ↦ (o, get_elem?-set_ne xs p q e' other ∙ at, refl, refl)
  ]

  -- An entry of `entities` refers to an object with that id.
  abbrev pub IdOk : Store R → String × ℕ → Type 0
  IdOk s (k, p) = (e : Entity R) × (get_elem? s.objects p ≡ some e) × (e.id ≡ k)

module _ {R : Type 0} (lower : String → String) where
  -- An entry of `by_name` refers to an object of that name, which `entities` holds under its id, and
  -- which has another id than each of `later`.
  abbrev pub NameOk : Store R → List (Entity R) → String × ℕ → Type 0
  NameOk s later (n, p) =
      (e : Entity R) × (get_elem? s.objects p ≡ some e)
      × (lookup e.id s.entities ≡ some p)
      × (lower e.name ≡ n)
      × All (λ (o : Entity R). e.id ≢ o.id) later

  pub record IsCoherent (s : Store R) (later : List (Entity R)) : Type 0 where
    pub ids : All (IdOk s) s.entities
    pub names : All (NameOk s later) s.by_name

  add_entity-IsCoherent :
      (s : Store R) (e : Entity R) (es : List (Entity R))
      → All (λ (o : Entity R). e.id ≢ o.id) es
      → IsCoherent s (e ∷ es)
      → IsCoherent (add_entity lower s e) es
  add_entity-IsCoherent s e es d c = record {
    ids =
        insert-All (IdOk (add_entity lower s e)) e.id (length s.objects) s.entities
          (All-map (IdOk s) (IdOk (add_entity lower s e)) keep_id s.entities c.ids)
          (e, get_elem?-append_end s.objects e, refl);
    names =
        insert-All (NameOk (add_entity lower s e) es) (lower e.name) (length s.objects) s.by_name
          (All-map (NameOk s (e ∷ es)) (NameOk (add_entity lower s e) es) keep_name s.by_name
            c.names)
          (e, get_elem?-append_end s.objects e, simp (lookup-insert, eq_refl), refl, d);
  }
    where
      keep_id : (a : String × ℕ) → IdOk s a → IdOk (add_entity lower s e) a
      keep_id (k, p) (o, at, same) =
          (o, get_elem?-append_left s.objects (e ∷ []) p (get_elem?-lt s.objects p at) ∙ at, same)

      keep_name : (a : String × ℕ) → NameOk s (e ∷ es) a → NameOk (add_entity lower s e) es a
      keep_name (n, p) (o, at, held, same, (ne, nes)) = (
        o,
        get_elem?-append_left s.objects (e ∷ []) p (get_elem?-lt s.objects p at) ∙ at,
        ground (arith, lookup-insert e.id o.id (length s.objects) s.entities, eq_iff e.id o.id),
        same,
        nes,
      )

  add_entities-IsCoherent :
      (s : Store R) (es : List (Entity R))
      → Distinct es
      → IsCoherent s es
      → IsCoherent (add_entities lower s es) []
  unfolding add_entities
  add_entities-IsCoherent s [] d c = c
  add_entities-IsCoherent s (e ∷ es) (d, ds) c =
      add_entities-IsCoherent (add_entity lower s e) es ds (add_entity-IsCoherent s e es d c)

  write_state-IsCoherent :
      (s : Store R) (p : ℕ) (value : Option R) (text : Option String) (ts : R)
      → IsCoherent s []
      → IsCoherent (write_state s p value text ts) []
  unfolding write_state
  write_state-IsCoherent s p value text ts c = elim (Option-cases (get_elem? s.objects p)) [
    | inl missing ↦ rw (missing, write_state) c
    | inr (e, found) ↦
        let e' : Entity R = record e { value = value; text = text; updated = some ts } in
        let s' : Store R = record s { objects = set s.objects p e' } in
        let keep_id : (a : String × ℕ) → IdOk s a → IdOk s' a = λ a h.
          let (o, at, key, name) = get_elem?-set_kept s.objects p a.1 e e' found h.1 refl refl in
          (o, at, key ∙ h.2) in
        let keep_name : (a : String × ℕ) → NameOk s [] a → NameOk s' [] a = λ a h.
          let (o, at, key, name) = get_elem?-set_kept s.objects p a.1 e e' found h.1 refl refl in
          (o, at, rw key h.2, rw name h.3, tt) in
        rw (found, write_state)
          (record {
            ids = All-map (IdOk s) (IdOk s') keep_id s.entities c.ids;
            names = All-map (NameOk s []) (NameOk s' []) keep_name s.by_name c.names;
          })
  ]

  -- A snapshot names no id twice.
  abbrev pub IsServed : Message R → Type 0
  IsServed (Message.snapshot list st) = Distinct list
  IsServed _ = Unit

  -- Between messages the two maps refer to the same objects: each entry of `entities` to an object
  -- with that id, and each entry of `byName` to an object of that name which `entities` holds under
  -- its id. Every message keeps this, where the entities of a snapshot have distinct ids.
  pub on_message-IsCoherent :
      (s : Store R) (m : Message R)
      → IsServed m
      → IsCoherent s []
      → IsCoherent (on_message lower s m).0 []
  unfolding on_message set_entities
  on_message-IsCoherent s (Message.snapshot list st) d c =
      let filled =
        add_entities-IsCoherent (record s { entities = []; by_name = [] }) list d
          (record { ids = tt; names = tt }) in
      record { ids = filled.ids; names = filled.names }
  on_message-IsCoherent s (Message.state id value text ts) d c =
      elim (Option-cases (lookup id s.entities)) [
        | inl missing ↦ rw (missing, on_message) c
        | inr (p, found) ↦
            let kept = write_state-IsCoherent s p value text ts c in
            rw (found, on_message) (record { ids = kept.ids; names = kept.names })
      ]
  on_message-IsCoherent s (Message.status st) d c = record { ids = c.ids; names = c.names }
  on_message-IsCoherent s Message.other d c = c
