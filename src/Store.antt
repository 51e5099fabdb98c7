-- ===== src/Store.antt =====
-- web/nasa_web/static/js/store.js: the live entities. The two maps of the page hold the same
-- objects, so the model keeps the objects apart, and the maps hold their places in that list.
pub mod Connection
pub mod Names
pub mod Heat
pub mod WaterLaw
pub mod Coherence
pub mod Lookup
pub mod Refinement
use Prim.Native.String.{◌++◌ as str_append}
use nasa_cpp.Base.{
  ℕ, Bool, true, Option, none, some, List, [], ◌∷◌, ◌++◌, String, JsMap, lookup, insert, length,
  get_elem?, set, starts_with, if◌then◌else◌,
}
use nasa_cpp.Entity.{Entity, Status}

pub record Store (R : Type 0) : Type 0 where
  pub objects : List (Entity R)
  pub entities : JsMap ℕ  -- id -> entity
  pub by_name : JsMap ℕ  -- lower-case name -> entity
  pub status : Status R
  pub ws_connected : Bool
  pub ready : Bool

pub data Message (R : Type 0) : Type 0 where
  snapshot : List (Entity R) → Status R → Message R
  state : String → Option R → Option String → R → Message R
  status : Status R → Message R
  other : Message R

-- What `emit` passes to the listeners.
pub data Event : Type 0 where
  connection snapshot : Event
  state : ℕ → Event

module _ {R : Type 0} where
  abbrev pub deref : List (Entity R) → Option ℕ → Option (Entity R)
  deref objects none = none
  deref objects (some p) = get_elem? objects p

  -- `store.entities.get(id)`
  unfoldable pub by_id : Store R → String → Option (Entity R)
  by_id s id = deref s.objects (lookup id s.entities)

  -- `e.value = …; e.text = …; e.updated = …` through the reference `p`
  unfoldable pub write_state : Store R → ℕ → Option R → Option String → R → Store R
  write_state s p value text ts = elim (get_elem? s.objects p) [
    | none ↦ s
    | some e ↦ record s {
      objects = set s.objects p (record e { value = value; text = text; updated = some ts });
    }
  ]

-- `lower` stands for `toLowerCase`.
module _ {R : Type 0} (lower : String → String) where
  abbrev pub add_entity : Store R → Entity R → Store R
  add_entity s e = record s {
    objects = s.objects ++ e ∷ [];
    entities = insert e.id (length s.objects) s.entities;
    by_name = insert (lower e.name) (length s.objects) s.by_name;
  }

  -- the loop of `setEntities`
  unfoldable pub add_entities : Store R → List (Entity R) → Store R
  add_entities s [] = s
  add_entities s (e ∷ es) = add_entities (add_entity s e) es

  unfoldable pub set_entities : Store R → List (Entity R) → Store R
  set_entities s list = add_entities (record s { entities = []; by_name = [] }) list

  -- `ws.onmessage`
  unfoldable pub on_message : Store R → Message R → Store R × List Event
  on_message s (Message.snapshot list st) =
      (record (set_entities s list) { status = st; ready = true }, Event.snapshot ∷ [])
  on_message s (Message.state id value text ts) = elim (lookup id s.entities) [
    | none ↦ (s, [])
    | some p ↦
        let s' = write_state s p value text ts in
        (record s' { status = record (s'.status) { last_message = some ts } }, Event.state p ∷ [])
  ]
  on_message s (Message.status st) = (record s { status = st }, connection ∷ [])
  on_message s other = (s, [])

  unfoldable pub ent : Store R → String → Option (Entity R)
  ent s name = deref s.objects (lookup (lower name) s.by_name)

  unfoldable pub val : Store R → String → Option R
  unfolding ent
  val s name = elim (ent s name) [ none ↦ none | some e ↦ e.value ]

  -- `show` stands for `String` on a number.
  unfoldable pub text : (R → String) → Store R → String → Option String
  unfolding ent
  text show s name = elim (ent s name) [
    | none ↦ none
    | some e ↦ elim e.text [
      | some t ↦ some t
      | none ↦ elim e.value [ none ↦ none | some v ↦ some (show v) ]
    ]
  ]

-- The loop of `fsv`, over the rest of `byName`. What an entity lacks (`value`) is `null`.
unfoldable pub first_with_prefix : {R : Type 0} → List (Entity R) → String → JsMap ℕ → Option R
first_with_prefix objects prefix [] = none
first_with_prefix objects prefix ((name, p) ∷ m) =
    let rest = first_with_prefix objects prefix m in
    if starts_with name prefix
    then elim (get_elem? objects p) [ none ↦ none | some e ↦ e.value ]
    else rest

-- `fsv(code)`, with the code in digits
unfoldable pub fsv : {R : Type 0} → Store R → String → Option R
unfolding first_with_prefix
fsv s code = first_with_prefix s.objects (str_append "fsv " (str_append code " ")) s.by_name
