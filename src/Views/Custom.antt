-- ===== src/Views/Custom.antt =====
-- The custom chart of web/nasa_web/static/js/views/history.js: the picked sensors, and one chart for
-- each unit.
pub mod Loads
pub mod Sensors
use nasa_cpp.Base.{
  includes, ◌≡◌, refl, inl, inr, Bool, false, not, ◌&&◌, ◌||◌, none, some, List, [], ◌∷◌, ◌++◌,
  String, JsMap, lookup, arith, filter, str_eq, eq_iff, if◌then◌else◌, Bool-cases,
}
use nasa_cpp.Base.Grouping.{group_by, lookup-group_by, joined}
use nasa_cpp.Entity.{Entity}
use nasa_cpp.Store.{Store, by_id}

-- `if (id && !custom.includes(id)) custom.push(id)`
unfoldable pub pick : List String → String → List String
pick custom id =
    if not (str_eq id "") && not (includes custom id) then custom ++ id ∷ [] else custom

-- `custom.filter((id) => id !== removed)`
unfoldable pub unpick : List String → String → List String
unpick custom removed = filter (λ id. not (str_eq id removed)) custom

-- `custom.map((id) => store.entities.get(id)).filter(Boolean)`
unfoldable pub chosen : {R : Type 0} → Store R → List String → List (Entity R)
chosen s [] = []
chosen s (id ∷ custom) = elim (by_id s id) [ none ↦ chosen s custom | some e ↦ e ∷ chosen s custom ]

-- `x.unit || "value"`
abbrev pub unit_key : {R : Type 0} → Entity R → String
unit_key e = elim e.unit [ none ↦ "value" | some u ↦ if str_eq u "" then "value" else u ]

-- The groups of `loadCustom`.
unfoldable pub unit_groups : {R : Type 0} → List (Entity R) → JsMap (List (Entity R))
unit_groups entities = group_by unit_key [] entities

includes-append :
    (custom : List String) (id x : String)
    → includes (custom ++ id ∷ []) x ≡ (includes custom x || str_eq id x)
includes-append [] id x = ground arith
includes-append (i ∷ custom) id x = ground (arith, includes-append custom id x)

-- No sensor is picked twice.
abbrev pub NoRepeat : List String → Type 0
NoRepeat [] = Unit
NoRepeat (id ∷ custom) = (includes custom id ≡ false) × NoRepeat custom

NoRepeat-append :
    (custom : List String) (id : String)
    → NoRepeat custom
    → includes custom id ≡ false
    → NoRepeat (custom ++ id ∷ [])
NoRepeat-append [] id r h = (refl, tt)
NoRepeat-append (i ∷ custom) id (r, rs) h = (
  ground (arith, includes-append custom id i, eq_iff i id, eq_iff id i),
  NoRepeat-append custom id rs (ground arith),
)

includes-unpick :
    (custom : List String) (removed x : String)
    → includes (unpick custom removed) x ≡ (includes custom x && not (str_eq x removed))
unfolding unpick
includes-unpick [] removed x = refl
includes-unpick (i ∷ custom) removed x =
    ground (arith, includes-unpick custom removed x, eq_iff i removed, eq_iff i x, eq_iff x removed)

unpick-NoRepeat :
    (custom : List String) (removed : String) → NoRepeat custom → NoRepeat (unpick custom removed)
unfolding unpick
unpick-NoRepeat [] removed r = tt
unpick-NoRepeat (i ∷ custom) removed (r, rs) = elim (Bool-cases (str_eq i removed)) [
  | inl same ↦ rw same (unpick-NoRepeat custom removed rs)
  | inr other ↦
      rw other (ground (arith, includes-unpick custom removed i), unpick-NoRepeat custom removed rs)
]

pick-NoRepeat : (custom : List String) (id : String) → NoRepeat custom → NoRepeat (pick custom id)
unfolding pick
pick-NoRepeat custom id r = elim (Bool-cases (not (str_eq id "") && not (includes custom id))) [
  | inl new ↦ rw new (NoRepeat-append custom id r (ground arith))
  | inr old ↦ rw old r
]

pub includes-pick :
    (custom : List String) (id x : String)
    → includes (pick custom id) x ≡ (includes custom x || str_eq id x && not (str_eq id ""))
unfolding pick
includes-pick custom id x = ground (arith, includes-append custom id x, eq_iff id x)

-- Picking and removing sensors keeps every sensor at most once. After a sensor is picked it is in the
-- list, after it is removed it is not, and no other sensor comes or goes.
pick_lem :
    (custom : List String) (id x : String)
    → NoRepeat custom
    → NoRepeat (pick custom id)
      × NoRepeat (unpick custom id)
      × (includes (pick custom id) x ≡ (includes custom x || str_eq id x && not (str_eq id "")))
      × (includes (unpick custom id) x ≡ (includes custom x && not (str_eq x id)))
pick_lem custom id x r = (
  pick-NoRepeat custom id r,
  unpick-NoRepeat custom id r,
  includes-pick custom id x,
  includes-unpick custom id x,
)

-- A unit has a chart exactly if a chosen sensor has it, and the chart draws the sensors with that
-- unit and no others, in the order in which they were picked: never two units on one chart.
pub unit_groups_lem :
    {R : Type 0} (entities : List (Entity R)) (u : String)
    → lookup u (unit_groups entities) ≡ joined none (filter (λ e. str_eq (unit_key e) u) entities)
unfolding unit_groups
unit_groups_lem entities u = lookup-group_by unit_key [] entities u
