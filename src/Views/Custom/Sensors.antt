-- ===== src/Views/Custom/Sensors.antt =====
-- `loadCustom` of web/nasa_web/static/js/views/history.js: the list of sensors to add, and the chips of
-- those that were picked.
use nasa_cpp.Base.{
  includes, ◌≡◌, refl, inl, inr, Bool, true, false, not, ◌&&◌, ◌||◌, List, [], ◌∷◌, String, arith,
  map, All, filter, str_eq, or_else, eq_iff, Bool-cases,
}
use nasa_cpp.Base.Sorting.{sort_by, IsSortedBy, sort_by-IsSortedBy}
use nasa_cpp.Base.Collation.{Sign, not_after, IsCollation}
use nasa_cpp.Entity.{Entity, is_numeric}
use nasa_cpp.Store.{Store}
use nasa_cpp.Views.Custom.{pick, chosen, includes-pick}

-- An option of `h-pick`; the text has the unit in brackets where there is one.
pub record SensorOption : Type 0 where
  pub value : String
  pub name : String
  pub unit : String

module _ {R : Type 0} (compare : String → String → Sign) where
  abbrev can_draw : Entity R → Bool
  can_draw e = is_numeric e.kind && not (str_eq e.category "fsv")

  abbrev pub by_name : Entity R → Entity R → Bool
  by_name a b = not_after (compare a.name b.name)

  -- `numeric`, where `compare` stands for `localeCompare`
  unfoldable pub numeric_sensors : List (Entity R) → List (Entity R)
  numeric_sensors all = sort_by by_name (filter can_draw all)

  -- `numeric.filter((x) => !custom.includes(x.id))`
  unfoldable pub offered : List String → List (Entity R) → List (Entity R)
  offered custom all = filter (λ (e : Entity R). not (includes custom e.id)) (numeric_sensors all)

  abbrev pub option_of : Entity R → SensorOption
  option_of e = record { value = e.id; name = e.name; unit = or_else e.unit "" }

  -- The options after "+ Add sensor…"
  abbrev pub sensor_options : List String → List (Entity R) → List SensorOption
  sensor_options custom all = map option_of (offered custom all)

  filter-All :
      (P : Entity R → Type 0) (keep : Entity R → Bool) (xs : List (Entity R))
      → All P xs
      → All P (filter keep xs)
  filter-All P keep [] h = tt
  filter-All P keep (x ∷ xs) (p, h) = elim (Bool-cases (keep x)) [
    | inl kept ↦ rw kept (p, filter-All P keep xs h)
    | inr dropped ↦ rw dropped (filter-All P keep xs h)
  ]

  filter-IsSortedBy :
      (keep : Entity R → Bool) (xs : List (Entity R))
      → IsSortedBy by_name xs
      → IsSortedBy by_name (filter keep xs)
  filter-IsSortedBy keep [] h = tt
  filter-IsSortedBy keep (x ∷ xs) (low, h) = elim (Bool-cases (keep x)) [
    | inl kept ↦
        rw kept (filter-All (λ y. by_name x y ≡ true) keep xs low, filter-IsSortedBy keep xs h)
    | inr dropped ↦ rw dropped (filter-IsSortedBy keep xs h)
  ]

  -- The sensors on offer come sorted by name, where the comparison of texts is an order.
  pub offered-IsSortedBy :
      (custom : List String) (all : List (Entity R))
      → IsCollation compare
      → IsSortedBy by_name (offered custom all)
  unfolding offered numeric_sensors
  offered-IsSortedBy custom all c =
      filter-IsSortedBy (λ e. not (includes custom e.id)) (numeric_sensors all)
        (sort_by-IsSortedBy by_name (λ x y h. ground (arith, c.flip x.name y.name))
          (λ x y z h k. c.trans x.name y.name z.name h k) (filter can_draw all))

  filter-twice :
      (custom : List String) (id : String) (xs : List (Entity R))
      → ((x : String) → includes (pick custom id) x ≡ (includes custom x || str_eq id x))
      → filter (λ (e : Entity R). not (includes (pick custom id) e.id)) xs
        ≡ filter
            (λ (e : Entity R). not (str_eq e.id id))
            (filter (λ (e : Entity R). not (includes custom e.id)) xs)
  filter-twice custom id [] h = refl
  filter-twice custom id (x ∷ xs) h =
      ground (arith, filter-twice custom id xs h, h x.id, eq_iff id x.id, eq_iff x.id id)

  -- Picking a sensor takes it from the offer, and leaves the others there in their order.
  pub offered-pick :
      (custom : List String) (id : String) (all : List (Entity R))
      → str_eq id "" ≡ false
      → offered (pick custom id) all
        ≡ filter (λ (e : Entity R). not (str_eq e.id id)) (offered custom all)
  unfolding offered
  offered-pick custom id all named =
      filter-twice custom id (numeric_sensors all)
        (λ x. ground (arith, includes-pick custom id x, named))

-- A chip of `h-chips`: the id that a click removes, and the name.
abbrev pub sensor_chips : {R : Type 0} → Store R → List String → List (String × String)
sensor_chips s custom = map (λ e. (e.id, e.name)) (chosen s custom)
