-- ===== src/Drawer.antt =====
-- web/nasa_web/static/js/drawer.js: the side panel, whose history arrives some time after it opens.
-- `openEntity` replaces the elements of the panel, and `load` keeps those that it found when it was
-- called, so the model counts the panels: only the elements of the last one are on the page.
pub mod Requests
pub mod Late
pub mod Figures
pub mod Shares
use nasa_cpp.Base.{
  erase_at, ℕ, zero, suc, ◌+◌, Bool, true, false, Option, none, some, List, [], ◌∷◌, String, str_eq,
  if◌then◌else◌, ◌==◌, get_elem?,
}
use nasa_cpp.Entity.{Entity, is_numeric}

-- A call of `load` that waits for `api.history`.
pub record Request (R : Type 0) : Type 0 where
  pub id : String
  pub range : R
  pub numeric : Bool  -- `e.kind === "numeric"`
  pub panel : ℕ  -- the panel in which it found `#drawer-chart` and `#drawer-stats`

-- What `#drawer-chart` shows. A line chart without samples shows a text, which its `destroy` leaves;
-- of one with samples it leaves nothing.
pub data Area (R : Type 0) : Type 0 where
  skeleton blank : Area R
  plot no_data states : Request R → Area R

pub record Drawer (R : Type 0) : Type 0 where
  pub hidden : Bool
  pub current_id : Option String
  pub chart : Option ℕ  -- the variable `chart`, by the panel in which its chart stands
  pub panels : ℕ  -- how often `openEntity` has replaced the elements
  pub stats : Option (Request R)  -- what `#drawer-stats` on the page is filled from
  pub area : Area R  -- `#drawer-chart` on the page
  pub waiting : List (Request R)  -- the calls of `load` with no answer yet, the last one first

-- `id === currentId`
abbrev pub is_current : Option String → String → Bool
is_current none id = false
is_current (some c) id = str_eq c id

module _ {R : Type 0} where
  abbrev pub unplotted : Area R → Area R
  unplotted (plot q) = blank
  unplotted other = other

  -- `chart?.destroy()`, as far as it is on the page
  abbrev pub without_chart : Option ℕ → ℕ → Area R → Area R
  without_chart none panels area = area
  without_chart (some p) panels area = if p == panels then unplotted area else area

  unfoldable pub close : Drawer R → Drawer R
  close d = record d {
    hidden = true;
    area = without_chart d.chart d.panels d.area;
    chart = none;
    current_id = none;
  }

  -- `openEntity(id, range)`, where `store.entities.get(id)` gives the entity or nothing; with the first
  -- part of `load`.
  unfoldable pub open_entity : Drawer R → Option (Entity R) → String → R → Drawer R
  open_entity d none id range = d
  open_entity d (some e) id range = record {
    hidden = false;
    current_id = some id;
    chart = d.chart;
    panels = suc d.panels;
    stats = none;
    area = skeleton;
    waiting =
        record { id = e.id; range = range; numeric = is_numeric e.kind; panel = suc d.panels }
        ∷ d.waiting;
  }

  -- What `load` draws; `samples` says whether the answer has any.
  abbrev pub drawn : Bool → Request R → Bool → Area R
  drawn true q true = plot q
  drawn true q false = no_data q
  drawn false q samples = states q

  -- The rest of `load`, when the answer arrives.
  unfoldable pub on_history : Drawer R → Request R → Bool → Drawer R
  on_history d q samples =
      if is_current d.current_id q.id
      then record d {
        stats = if q.panel == d.panels then some q else d.stats;
        area =
            if q.panel == d.panels
            then drawn q.numeric q samples
            else without_chart d.chart d.panels d.area;
        chart = if q.numeric then some q.panel else none;
      }
      else d

  -- The answer to one of the waiting calls, in whatever order they come.
  unfoldable pub on_answer : Drawer R → ℕ → Bool → Drawer R
  unfolding on_history
  on_answer d i samples = elim (get_elem? d.waiting i) [
    | none ↦ d
    | some q ↦ on_history (record d { waiting = erase_at d.waiting i }) q samples
  ]

  -- the guard of `refreshDrawer`
  unfoldable pub refreshes : Drawer R → Entity R → Bool
  refreshes d e = is_current d.current_id e.id

pub data Step (R : Type 0) : Type 0 where
  closing : Step R
  opening : Option (Entity R) → String → R → Step R
  answer : ℕ → Bool → Step R

unfoldable pub step : {R : Type 0} → Drawer R → Step R → Drawer R
unfolding close open_entity on_answer
step d closing = close d
step d (opening e id range) = open_entity d e id range
step d (answer i samples) = on_answer d i samples

unfoldable pub steps : {R : Type 0} → Drawer R → List (Step R) → Drawer R
steps d [] = d
steps d (s ∷ ss) = steps (step d s) ss
