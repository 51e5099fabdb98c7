-- ===== src/Store/Refinement.antt =====
-- store.js against a store of one list: the entities of the last snapshot, changed in place.
use nasa_cpp.Base.{
  ◌≡◌, refl, sym, ◌∙◌, inl, inr, Bool, true, false, Option, none, some, List, [], ◌∷◌, map, String,
  lookup, arith, All, eq_iff, str_eq, if◌then◌else◌, lookup-entry, get_elem?, get_elem?-lt,
  get_elem?-set_self, get_elem?-set_ne, Option-cases,
}
use native.Mathlib.Decide.{ℕ_discrete}
use nasa_cpp.Entity.{Entity, Status}
use nasa_cpp.Store.{Store, Message, by_id, write_state, on_message, ent}
use nasa_cpp.Store.Coherence.{IsCoherent, IdOk, IsServed, on_message-IsCoherent}
use nasa_cpp.Store.Lookup.{last_with, after_state, snapshot_lookup, ent-state}

-- The abstract store: no map and no reference.
pub record Listed (R : Type 0) : Type 0 where
  pub list : List (Entity R)
  pub status : Status R
  pub ready : Bool

module _ {R : Type 0} where
  -- `store` before any message, with the status `{ mqtt: false }` it starts with
  unfoldable pub unfilled : Status R → Store R
  unfilled st = record {
    objects = [];
    entities = [];
    by_name = [];
    status = st;
    ws_connected = false;
    ready = false;
  }

  abbrev pub renewed : String → Option R → Option String → R → Entity R → Entity R
  renewed id value text ts e =
      if str_eq e.id id then record e { value = value; text = text; updated = some ts } else e

  -- A message is a change of the list: a snapshot replaces it, a state message changes the entities
  -- with its id, and is ignored where there are none.
  unfoldable pub listed_message : Listed R → Message R → Listed R
  listed_message a (Message.snapshot list st) = record { list = list; status = st; ready = true }
  listed_message a (Message.state id value text ts) = elim (last_with (λ e. e.id) id a.list) [
    | none ↦ a
    | some e ↦ record a {
      list = map (renewed id value text ts) a.list;
      status = record (a.status) { last_message = some ts };
    }
  ]
  listed_message a (Message.status st) = record a { status = st }
  listed_message a Message.other = a

  unfoldable pub listed_run : Listed R → List (Message R) → Listed R
  listed_run a [] = a
  listed_run a (m ∷ ms) = listed_run (listed_message a m) ms

  -- The store of store.js after some messages.
  unfoldable pub run_messages : (String → String) → Store R → List (Message R) → Store R
  run_messages lower s [] = s
  run_messages lower s (m ∷ ms) = run_messages lower (on_message lower s m).0 ms

module _ {R : Type 0} (lower : String → String) where
  last_with-renewed :
      (key : Entity R → String) (k id : String) (value : Option R) (text : Option String) (ts : R)
      (es : List (Entity R))
      → ((e : Entity R) → key (renewed id value text ts e) ≡ key e)
      → last_with key k (map (renewed id value text ts) es)
        ≡ after_state lower id value text ts (last_with key k es)
  last_with-renewed key k id value text ts [] same = refl
  last_with-renewed key k id value text ts (e ∷ es) same =
      ground (arith, same e, last_with-renewed key k id value text ts es same)

  pub by_id-state :
      (s : Store R) (id : String) (value : Option R) (text : Option String) (ts : R) (k : String)
      → IsCoherent lower s []
      → by_id (on_message lower s (Message.state id value text ts)).0 k
        ≡ after_state lower id value text ts (by_id s k)
  unfolding on_message write_state by_id
  by_id-state s id value text ts k c = elim (Option-cases (lookup k s.entities)) [
    | inl unnamed ↦ elim (Option-cases (lookup id s.entities)) [
      | inl missing ↦ ground arith
      | inr (p, found) ↦ elim (Option-cases (get_elem? s.objects p)) [
        | inl gone ↦ ground arith
        | inr (o, at) ↦ ground arith
      ]
    ]
    | inr (q, named) ↦
        let (e, at, key) = lookup-entry (IdOk s) k s.entities c.ids named in
        elim (Option-cases (lookup id s.entities)) [
          | inl missing ↦ ground (arith, eq_iff e.id id)
          | inr (p, found) ↦
              let (o, there, same) = lookup-entry (IdOk s) id s.entities c.ids found in
              elim (ℕ_discrete p q) [
                | yes p≡q ↦ ground (
                  arith,
                  eq_iff e.id id,
                  get_elem?-set_self s.objects q
                      (record e { value = value; text = text; updated = some ts })
                      (get_elem?-lt s.objects q at),
                )
                | no p≢q ↦ ground (
                  arith,
                  eq_iff e.id id,
                  get_elem?-set_ne s.objects p q
                      (record o { value = value; text = text; updated = some ts }) p≢q,
                )
              ]
        ]
  ]

  -- The store shows a list.
  record Shows (s : Store R) (a : Listed R) : Type 0 where
    ids : (id : String) → by_id s id ≡ last_with (λ e. e.id) id a.list
    names : (name : String) → ent lower s name ≡ last_with (λ e. lower e.name) (lower name) a.list
    status : s.status ≡ a.status
    ready : s.ready ≡ a.ready

  state_unknown :
      (s : Store R) (id : String) (value : Option R) (text : Option String) (ts : R)
      → IsCoherent lower s []
      → by_id s id ≡ none
      → (on_message lower s (Message.state id value text ts)).0 ≡ s
  unfolding on_message by_id
  state_unknown s id value text ts c missing = elim (Option-cases (lookup id s.entities)) [
    | inl none_there ↦ rw (none_there, on_message) refl
    | inr (p, found) ↦
        let (o, there, same) = lookup-entry (IdOk s) id s.entities c.ids found in
        absurd (ground arith)
  ]

  state_known :
      (s : Store R) (id : String) (value : Option R) (text : Option String) (ts : R) (e : Entity R)
      → by_id s id ≡ some e
      → let s' = (on_message lower s (Message.state id value text ts)).0 in
        (s'.status ≡ record (s.status) { last_message = some ts }) × (s'.ready ≡ s.ready)
  unfolding on_message by_id write_state
  state_known s id value text ts e held = elim (Option-cases (lookup id s.entities)) [
    | inl none_there ↦ absurd (ground arith)
    | inr (p, found) ↦ elim (Option-cases (get_elem? s.objects p)) [
      | inl gone ↦ absurd (ground arith)
      | inr (o, at) ↦ ground arith
    ]
  ]

  message-Shows :
      (s : Store R) (a : Listed R) (m : Message R)
      → IsCoherent lower s []
      → Shows s a
      → Shows (on_message lower s m).0 (listed_message a m)
  unfolding listed_message on_message by_id ent
  message-Shows s a (Message.snapshot list st) c h = record {
    ids = λ id. (snapshot_lookup lower s list st id id).0;
    names = λ name. (snapshot_lookup lower s list st name name).1;
    status = refl;
    ready = refl;
  }
  message-Shows s a (Message.state id value text ts) c h =
      elim (Option-cases (last_with (λ e. e.id) id a.list)) [
        | inl missing ↦
            rw (missing, listed_message)
              (rw (state_unknown s id value text ts c (h.ids id ∙ missing)) h)
        | inr (e, held) ↦
            let (st, rd) = state_known s id value text ts e (h.ids id ∙ held) in
            rw (held, listed_message)
              (record {
                ids = λ k.
                    by_id-state s id value text ts k c
                    ∙ rw (h.ids k) (
                        sym (
                          last_with-renewed (λ e. e.id) k id value text ts a.list
                            (λ e. ground arith)));
                names = λ name.
                    ent-state lower s id value text ts name c
                    ∙ rw (h.names name) (
                        sym (
                          last_with-renewed (λ e. lower e.name) (lower name) id value text ts a.list
                            (λ e. ground arith)));
                status = st ∙ rw h.status refl;
                ready = rd ∙ h.ready;
              })
      ]
  message-Shows s a (Message.status st) c h = record {
    ids = h.ids;
    names = h.names;
    status = refl;
    ready = h.ready;
  }
  message-Shows s a Message.other c h = h

  run-Shows :
      (s : Store R) (a : Listed R) (ms : List (Message R))
      → All (IsServed lower) ms
      → IsCoherent lower s []
      → Shows s a
      → Shows (run_messages lower s ms) (listed_run a ms)
  unfolding run_messages listed_run
  run-Shows s a [] q c h = h
  run-Shows s a (m ∷ ms) (q, qs) c h =
      run-Shows (on_message lower s m).0 (listed_message a m) ms qs
        (on_message-IsCoherent lower s m q c) (message-Shows s a m c h)

  -- The store of store.js, with its two maps of references and the objects that they share, behaves
  -- like one list of entities: after any messages from the empty store on, where the entities of each
  -- snapshot have distinct ids, an id and a name look up the last entity of the list that has them, and
  -- the status and the readiness are the list's.
  pub store_refines_list :
      (st : Status R) (ms : List (Message R)) (id name : String)
      → All (IsServed lower) ms
      → let s = run_messages lower (unfilled st) ms in
        let a = listed_run (record { list = []; status = st; ready = false }) ms in
        (by_id s id ≡ last_with (λ e. e.id) id a.list)
        × (ent lower s name ≡ last_with (λ e. lower e.name) (lower name) a.list)
        × (s.status ≡ a.status)
        × (s.ready ≡ a.ready)
  unfolding by_id ent unfilled
  store_refines_list st ms id name served =
      let h =
        run-Shows (unfilled st) (record { list = []; status = st; ready = false }) ms served
          (record { ids = tt; names = tt })
          (record { ids = λ k. refl; names = λ n. refl; status = refl; ready = refl }) in
      (h.ids id, h.names name, h.status, h.ready)
