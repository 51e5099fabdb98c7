-- ===== src/Views/Settings/Items.antt =====
-- The list that `render` of web/nasa_web/static/js/views/settings.js puts into groups, and `update`.
use nasa_cpp.Base.{
  ℕ, Bool, not, ◌&&◌, ◌||◌, Option, none, some, List, String, filter, str_eq, if◌then◌else◌,
}
use nasa_cpp.Base.Number.{Number}
use nasa_cpp.Base.Sorting.{sort_by}
use nasa_cpp.Base.Collation.{Sign, not_after}
use nasa_cpp.Entity.{Entity, Status, is_numeric}
use nasa_cpp.Format.Units.{entity_value}
use nasa_cpp.Controls.{Panel, confirm_state}
use nasa_cpp.Controls.Widget.{Widget, widget}

-- What stands at the right of a setting: its control, or its value and its unit.
pub data Value : Type 0 where
  control : Widget → Value
  plain : List ℕ → Option String → Value

-- What `update` does with the page.
pub data Refresh : Type 0 where
  nothing everything : Refresh
  one_value : String → Value → Refresh

abbrev present_unit : Option String → Option String
present_unit none = none
present_unit (some u) = if str_eq u "" then none else some u

module _ {R : Type 0} where
  abbrev pub is_fsv : Entity R → Bool
  is_fsv e = str_eq e.category "fsv"

  -- `!query || e.name.toLowerCase().includes(query)`
  abbrev pub is_found : (String → String) → (String → String → Bool) → String → Entity R → Bool
  is_found lower includes query e = str_eq query "" || includes (lower e.name) query

  -- `numeric` stands for `localeCompare` with the option `numeric`.
  module _ (numeric : String → String → Sign) where
    abbrev pub name_first : Entity R → Entity R → Bool
    name_first a b = not_after (numeric a.name b.name)

    module _ (lower : String → String) (includes : String → String → Bool) where
      -- `fsv`
      unfoldable pub settings_list : String → List (Entity R) → List (Entity R)
      settings_list query all =
          sort_by name_first (filter (is_found lower includes query) (filter is_fsv all))

module _ {R : Type 0} ⦃num : Number R⦄ (locale : R → ℕ → String) where
  -- `valueHtml(e)`
  unfoldable pub setting_value : Bool → Status R → Panel R → Entity R → Value
  setting_value editing st c e =
      if editing && e.writable && not st.read_only
      then control (widget locale st c (some e))
      else plain (entity_value locale (some e))
          (if is_numeric e.kind then present_unit e.unit else none)

  -- `update` at a state message; `has_slot` says that the page has a slot for the entity, and
  -- `shows_pending` that a stepper in it is pending.
  unfoldable pub update_state :
      Bool → Status R → Panel R → Entity R → Bool → Bool → Panel R × Refresh
  unfolding setting_value
  update_state editing st c e has_slot shows_pending =
      let c' = confirm_state c e in
      (
        c',
        if str_eq e.category "fsv" && has_slot && not shows_pending
            then one_value e.id (setting_value editing st c' e)
            else nothing,
      )
