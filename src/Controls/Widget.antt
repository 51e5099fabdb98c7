-- ===== src/Controls/Widget.antt =====
-- `widget` of web/nasa_web/static/js/controls.js: what the markup of a control shows and allows.
use nasa_cpp.Base.{
  ℕ, ◌≡◌, refl, ◌⊎◌, Bool, true, false, not, ◌||◌, Option, none, some, List, [], ◌∷◌, map, String,
  arith, max, lookup, or_else, str_eq, if◌then◌else◌, All,
}
use nasa_cpp.Base.Number.{Number}
use nasa_cpp.Entity.{Entity, Status, Kind, numeric, binary, enum}
use nasa_cpp.Format.Units.{decimals_for, print_num}
use nasa_cpp.Controls.{Panel, Pending, step_of}

-- A button of a segmented control.
pub record Segment : Type 0 where
  pub option : String
  pub active : Bool
  pub disabled : Bool

pub data Widget : Type 0 where
  blank : Widget
  switch : Bool → Bool → Widget  -- checked, disabled
  segmented : List Segment → Widget
  stepper : Bool → String → Bool → Bool → Widget  -- pending, output, the two buttons disabled

abbrev segment : Bool → Option String → String → Segment
segment dis text o = record {
  option = o;
  active = elim text [ none ↦ false | some t ↦ str_eq t o ];
  disabled = dis;
}

-- Every button and box of the widget is disabled.
abbrev pub IsLocked : Widget → Type 0
IsLocked blank = Unit
IsLocked (switch checked dis) = dis ≡ true
IsLocked (segmented parts) = All (λ (p : Segment). p.disabled ≡ true) parts
IsLocked (stepper p out down up) = (down ≡ true) × (up ≡ true)

segments-locked :
    (text : Option String) (os : List String)
    → All (λ (p : Segment). p.disabled ≡ true) (map (segment true text) os)
segments-locked text [] = tt
segments-locked text (o ∷ os) = (refl, segments-locked text os)

module _ {R : Type 0} ⦃num : Number R⦄ where
  -- `!e.writable || store.status.read_only`
  abbrev pub is_disabled : Status R → Entity R → Bool
  is_disabled st e = not e.writable || st.read_only

  -- `e.value ? "checked" : ""`
  abbrev is_truthy : Option R → Bool
  is_truthy none = false
  is_truthy (some v) = not (num.same v (num.of_nat 0))

  -- `e.min != null && v <= e.min`, where a missing `v` counts as 0
  abbrev pub at_min : Option R → Option R → Bool
  at_min none v = false
  at_min (some lo) v = num.le (or_else v (num.of_nat 0)) lo

  abbrev pub at_max : Option R → Option R → Bool
  at_max none v = false
  at_max (some hi) v = num.le hi (or_else v (num.of_nat 0))

  -- `pending ? pending.value : e.value`
  abbrev pub stepper_value : Option (Pending R) → Entity R → Option R
  stepper_value none e = e.value
  stepper_value (some p) e = some p.value

  abbrev is_pending : Option (Pending R) → Bool
  is_pending none = false
  is_pending (some p) = true

  module _ (locale : R → ℕ → String) where
    abbrev of_kind : Status R → Panel R → Entity R → Kind → Widget
    of_kind st c e binary = switch (is_truthy e.value) (is_disabled st e)
    of_kind st c e enum = segmented (map (segment (is_disabled st e) e.text) e.options)
    of_kind st c e numeric =
        let p = lookup e.id c.pending in
        let v = stepper_value p e in
        let decimals = max (decimals_for e.unit v) (if num.is_integer (step_of e) then 0 else 1) in
        stepper (is_pending p) (print_num locale v decimals) (is_disabled st e || at_min e.min v)
          (is_disabled st e || at_max e.max v)

    unfoldable pub widget : Status R → Panel R → Option (Entity R) → Widget
    widget st c none = blank
    widget st c (some e) = of_kind st c e e.kind

  of_kind-IsLocked :
      (locale : R → ℕ → String) (st : Status R) (c : Panel R) (e : Entity R) (k : Kind)
      → is_disabled st e ≡ true
      → IsLocked (of_kind locale st c e k)
  of_kind-IsLocked locale st c e binary h = h
  of_kind-IsLocked locale st c e enum h = rw h (segments-locked e.text e.options)
  of_kind-IsLocked locale st c e numeric h = ground arith

  -- Where the server is read-only or the entity is not writable, the widget of an entity of any kind
  -- has no button and no box that can be used.
  pub widget-IsLocked :
      (locale : R → ℕ → String) (st : Status R) (c : Panel R) (e : Entity R)
      → (st.read_only ≡ true) ⊎ (e.writable ≡ false)
      → IsLocked (widget locale st c (some e))
  unfolding widget
  widget-IsLocked locale st c e h = of_kind-IsLocked locale st c e e.kind (ground arith)
