-- ===== src/Views/Entities/Table.antt =====
-- `render` of web/nasa_web/static/js/views/entities.js: the filter chips and the rows of the table.
use nasa_cpp.Base.{
  JsMap, arith, ℕ, ◌≡◌, ◌∙◌, Bool, some, List, [], ◌∷◌, String, Perm, sym, map, length, length-map,
  lookup, or_else, str_eq, eq_iff, filter, if◌then◌else◌, ◌⊎◌, ◌≢◌, inl, inr, true, false, refl,
}
use nasa_cpp.Base.Number.{Number}
use nasa_cpp.Base.Sorting.{
  sort_by, sort_by-Perm, length-sort_by, sort_by-IsSortedBy, Ordered, IsSortedBy-Ordered,
}
use nasa_cpp.Base.Picking.{Picks, filter-Picks}
use nasa_cpp.Base.Collation.{
  Sign, negative, zero, positive, or_then, not_after, by_both, by_both-IsCollation, IsCollation,
}
use nasa_cpp.Entity.{Entity, is_numeric}
use nasa_cpp.Format.Units.{entity_value}
use nasa_cpp.Format.Age.{Age, ago}
use nasa_cpp.Views.Entities.{counts_of, matches, listed, counts_of-listed}

pub record Chip : Type 0 where
  pub key : String
  pub label : String
  pub active : Bool
  pub count : ℕ

pub record EntityRow (R : Type 0) : Type 0 where
  pub id : String
  pub name : String
  pub badge : String  -- the class of the badge, and its text
  pub platform : String
  pub value : List ℕ
  pub unit : String
  pub updated : Age R

abbrev chip : String → JsMap ℕ → String → String → Chip
chip chosen counts key label = record {
  key = key;
  label = label;
  active = str_eq chosen key;
  count = or_else (lookup key counts) 0;
}

not_after-first :
    (s t : Sign) → not_after (or_then s t) ≡ true → (s ≡ negative) ⊎ ((s ≡ zero) × (t ≢ positive))
not_after-first negative t h = inl refl
not_after-first zero t h = inr (refl, λ e. absurd (ground arith))
not_after-first positive t h = absurd (ground arith)

module _ {R : Type 0} where
  -- By category, and then by name.
  abbrev pub Before :
      (String → String → Sign) → (String → String → Sign) → Entity R → Entity R → Type 0
  Before plain numeric a b =
      (plain a.category b.category ≡ negative)
      ⊎ ((plain a.category b.category ≡ zero) × (numeric a.name b.name ≢ positive))

  -- `FILTERS.map(…)`
  unfoldable pub chips : String → List (Entity R) → List Chip
  chips chosen all =
      let counts = counts_of all in
      chip chosen counts "all" "All"
      ∷ chip chosen counts "sensor" "Sensors"
      ∷ chip chosen counts "control" "Controls"
      ∷ chip chosen counts "fsv" "FSV"
      ∷ []

  -- `plain` stands for `localeCompare`, and `numeric` for it with the option `numeric`.
  module _ (plain numeric : String → String → Sign) where
    -- `a.category.localeCompare(b.category) || a.name.localeCompare(b.name, …)`
    abbrev pub compare_entities : Entity R → Entity R → Sign
    compare_entities = by_both (λ (e : Entity R). e.category) (λ e. e.name) plain numeric

    abbrev pub precedes : Entity R → Entity R → Bool
    precedes a b = not_after (compare_entities a b)

    module _ (lower : String → String) (includes : String → String → Bool) where
      -- `list`
      unfoldable pub sorted_list : String → String → List (Entity R) → List (Entity R)
      sorted_list chosen query all = sort_by precedes (listed lower includes chosen query all)

      -- What the chip and the search let through.
      abbrev pub IsListed : String → String → Entity R → Type 0
      IsListed chosen query e =
          ((chosen ≡ "all") ⊎ (e.category ≡ chosen))
          × ((query ≡ "") ⊎ (includes (lower e.name) query ≡ true) ⊎ (includes e.id query ≡ true))

      matches-IsListed :
          (chosen query : String) (e : Entity R)
          → matches lower includes chosen query e ≡ true
          → IsListed chosen query e
      unfolding matches
      matches-IsListed chosen query e h =
          ground (arith, eq_iff chosen "all", eq_iff e.category chosen, eq_iff query "")

      IsListed-matches :
          (chosen query : String) (e : Entity R)
          → matches lower includes chosen query e ≡ false
          → ¬ IsListed chosen query e
      unfolding matches
      IsListed-matches chosen query e h l =
          ground (arith, eq_iff chosen "all", eq_iff e.category chosen, eq_iff query "")

      -- The table shows the entities of the chip (all of them for "all") whose name or id has the search
      -- in it, each as often as the store holds it, and no others; a row comes before another if its
      -- category comes first, or the categories are equal and its name does not come after, where the
      -- two comparisons of texts are orders.
      pub sorted_list_lem :
          (chosen query : String) (all : List (Entity R))
          → IsCollation plain
          → IsCollation numeric
          → (kept : List (Entity R)) × Picks (IsListed chosen query) all kept
            × Perm (sorted_list chosen query all) kept
            × Ordered (Before plain numeric) (sorted_list chosen query all)
      unfolding sorted_list listed
      sorted_list_lem chosen query all c d =
          let laws =
            by_both-IsCollation (λ (e : Entity R). e.category) (λ e. e.name) plain numeric c d in
          let kept = listed lower includes chosen query all in
          let sorted =
            sort_by-IsSortedBy precedes (λ x y h. ground (arith, laws.flip x y))
              (λ x y z h k. laws.trans x y z h k) kept in
          (
            kept,
            filter-Picks (IsListed chosen query) (matches lower includes chosen query) all
                (matches-IsListed chosen query) (IsListed-matches chosen query),
            sort_by-Perm precedes kept,
            IsSortedBy-Ordered precedes (Before plain numeric)
                (λ x y h. not_after-first (plain x.category y.category) (numeric x.name y.name) h)
                (sort_by precedes kept) sorted,
          )

      module _ ⦃num : Number R⦄ (locale : R → ℕ → String) where
        abbrev row_of : R → Entity R → EntityRow R
        row_of now e = record {
          id = e.id;
          name = e.name;
          badge = e.category;
          platform = e.platform;
          value = entity_value locale (some e);
          unit = if is_numeric e.kind then or_else e.unit "" else "";
          updated = ago now e.updated;
        }

        -- The rows, `[]` where "Nothing found" stands.
        unfoldable pub table_rows : R → String → String → List (Entity R) → List (EntityRow R)
        unfolding sorted_list
        table_rows now chosen query all = map (row_of now) (sorted_list chosen query all)

      -- With an empty search the number on the chip that is chosen is the number of rows, unless a
      -- category is itself called "all".
      chip-rows :
          ⦃num : Number R⦄ (locale : R → ℕ → String) (now : R) (chosen : String)
          (all : List (Entity R))
          → filter (λ (e : Entity R). str_eq e.category "all") all ≡ []
          → or_else (lookup chosen (counts_of all)) 0 ≡ length (table_rows locale now chosen "" all)
      unfolding table_rows sorted_list
      chip-rows locale now chosen all h =
          counts_of-listed lower includes all chosen h
          ∙ sym (
              length-map (row_of locale now) (sorted_list chosen "" all)
              ∙ length-sort_by precedes (listed lower includes chosen "" all))
