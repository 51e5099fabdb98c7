-- ===== src/Views/History/Load.antt =====
-- The fixed charts of web/nasa_web/static/js/views/history.js, and what `load` asks the server for.
pub mod Asked
use nasa_cpp.Base.{
  ℕ, ◌≡◌, ◌≢◌, refl, sym, ◌∙◌, inl, inr, Bool, true, false, not, ◌||◌, Option, none, some, List, [],
  ◌∷◌, ◌++◌, map, String, arith, eq_iff, eq_refl, includes, add_new, includes-add_new,
  add_new-NoRepeat, NoRepeat, All, All-map, filter, is_null, if◌then◌else◌, Bool-cases,
  Option-cases, str_eq, ◌==◌,
}
use nasa_cpp.Base.Number.{Number, ◌⊘◌, min_num}
use nasa_cpp.Entity.{Entity}
use nasa_cpp.Store.{Store, ent}
use nasa_cpp.Store.Names

-- An entry of `PANELS`.
pub record PanelDef : Type 0 where
  pub id : String
  pub title : String
  pub unit : String
  pub series : List (String × String)  -- name, label

-- `PANELS`
abbrev pub panel_defs : List PanelDef
panel_defs =
    record {
      id = "temps";
      title = "Temperatures";
      unit = "°C";
      series =
          (Names.outdoor, "Outdoor")
          ∷ (Names.water_out, "Flow out")
          ∷ (Names.water_in, "Return")
          ∷ (Names.tank, "DHW tank")
          ∷ (Names.outlet1, "Outlet zone 1")
          ∷ (Names.outlet2, "Outlet zone 2")
          ∷ (Names.law_target, "Water law target")
          ∷ [];
    }
    ∷ record {
      id = "power";
      title = "Electrical power";
      unit = "W";
      series = (Names.power, "Power") ∷ [];
    }
    ∷ record {
      id = "freq";
      title = "Compressor frequency";
      unit = "Hz";
      series = (Names.freq, "Frequency") ∷ [];
    }
    ∷ record {
      id = "flow";
      title = "Water flow";
      unit = "L/min";
      series = (Names.flow, "Flow") ∷ [];
    }
    ∷ []

-- `STATES`
abbrev pub state_defs : List (String × String)
state_defs =
    (Names.valve, "3-way valve")
    ∷ (Names.op_mode, "Operation")
    ∷ (Names.dhw, "DHW")
    ∷ (Names.zone1, "Zone 1")
    ∷ (Names.zone2, "Zone 2")
    ∷ (Names.defrost, "Defrost")
    ∷ (Names.backup, "Backup heater")
    ∷ []

module _ {R : Type 0} (lower : String → String) where
  abbrev pub is_known : Store R → String × String → Bool
  is_known s (name, label) = not (is_null (ent lower s name))

  abbrev pub any_known : Store R → List (String × String) → Bool
  any_known s [] = false
  any_known s (x ∷ xs) = is_known s x || any_known s xs

  -- `charts`, which `mount` sets up once: the panels with a known sensor, and their known sensors
  unfoldable pub panels_at_mount : Store R → List PanelDef → List PanelDef
  panels_at_mount s [] = []
  panels_at_mount s (p ∷ ps) =
      let rest = panels_at_mount s ps in
      if any_known s p.series
      then record p { series = filter (is_known s) p.series } ∷ rest
      else rest

  -- `c.series.forEach((x) => ids.add(ent(x.name).id))`, which throws where there is no such entity
  unfoldable pub add_series : Store R → List (String × String) → List String → Option (List String)
  add_series s [] ids = some ids
  add_series s ((name, label) ∷ xs) ids = elim (ent lower s name) [
    | none ↦ none
    | some e ↦ add_series s xs (add_new ids e.id)
  ]

  unfoldable pub add_charts : Store R → List PanelDef → List String → Option (List String)
  unfolding add_series
  add_charts s [] ids = some ids
  add_charts s (p ∷ ps) ids = elim (add_series s p.series ids) [
    | none ↦ none
    | some ids' ↦ add_charts s ps ids'
  ]

  -- `STATES.forEach(([n]) => ent(n) && ids.add(ent(n).id))`
  unfoldable pub add_states : Store R → List (String × String) → List String → List String
  add_states s [] ids = ids
  add_states s ((name, label) ∷ xs) ids = elim (ent lower s name) [
    | none ↦ add_states s xs ids
    | some e ↦ add_states s xs (add_new ids e.id)
  ]

  -- The ids that `load` asks for, for the charts that stand on the page; `none` where it throws.
  unfoldable pub load_ids : Store R → List PanelDef → Option (List String)
  unfolding add_charts add_states
  load_ids s charts = elim (add_charts s charts []) [
    | none ↦ none
    | some ids ↦ some (add_states s state_defs ids)
  ]

  -- `Math.min(1500, Math.round(width / 1.5))`, where `client` is `root.clientWidth`
  unfoldable pub load_points : ⦃num : Number R⦄ → ℕ → R
  load_points ⦃num⦄ client =
      let width = if client == 0 then 1200 else client in
      min_num (num.of_nat 1500) (num.round (num.of_nat width ⊘ num.decimal 15 1))
