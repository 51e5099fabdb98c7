-- ===== src/Drawer/Requests.antt =====
-- Which answer the side panel shows (web/nasa_web/static/js/drawer.js).
use nasa_cpp.Base.{
  erase_at, ℕ, ◌≡◌, refl, sym, inl, inr, Bool, true, false, Option, none, some, List, [], ◌∷◌,
  String, eq_iff, Bool-cases, Option-cases, arith, get_elem?, ◌==◌,
}
use nasa_cpp.Drawer.{
  Request, Area, skeleton, blank, plot, no_data, states, Drawer, is_current, without_chart,
  unplotted, drawn, on_history, on_answer, Step, closing, opening, answer, step, steps,
}

abbrev pub OpenOk : Option String → Bool → Type 0
OpenOk none hidden = hidden ≡ true
OpenOk (some c) hidden = hidden ≡ false

module _ {R : Type 0} where
  -- A request that is shown was made by the panel on the page, for the entity of the panel.
  abbrev pub Belongs : Option String → ℕ → Request R → Type 0
  Belongs none panels q = q.panel ≡ panels
  Belongs (some c) panels q = (q.panel ≡ panels) × (q.id ≡ c)

  abbrev pub StatsOk : Option String → ℕ → Option (Request R) → Type 0
  StatsOk current panels none = Unit
  StatsOk current panels (some q) = Belongs current panels q

  abbrev pub AreaOk : Option String → ℕ → Area R → Type 0
  AreaOk current panels skeleton = Unit
  AreaOk current panels blank = Unit
  AreaOk current panels (plot q) = Belongs current panels q
  AreaOk current panels (no_data q) = Belongs current panels q
  AreaOk current panels (states q) = Belongs current panels q

  pub record IsSound (d : Drawer R) : Type 0 where
    pub seen : OpenOk d.current_id d.hidden
    pub stats_ok : StatsOk d.current_id d.panels d.stats
    pub area_ok : AreaOk d.current_id d.panels d.area

  unplotted-AreaOk :
      (current : Option String) (panels : ℕ) (area : Area R)
      → AreaOk current panels area
      → AreaOk current panels (unplotted area)
  unplotted-AreaOk current panels (plot q) h = tt
  unplotted-AreaOk current panels skeleton h = tt
  unplotted-AreaOk current panels blank h = tt
  unplotted-AreaOk current panels (no_data q) h = h
  unplotted-AreaOk current panels (states q) h = h

  without_chart-AreaOk :
      (chart : Option ℕ) (current : Option String) (panels : ℕ) (area : Area R)
      → AreaOk current panels area
      → AreaOk current panels (without_chart chart panels area)
  without_chart-AreaOk none current panels area h = h
  without_chart-AreaOk (some p) current panels area h = elim (Bool-cases (p == panels)) [
    | inl here ↦ rw here (unplotted-AreaOk current panels area h)
    | inr gone ↦ rw gone h
  ]

  closed-StatsOk :
      (current : Option String) (panels : ℕ) (stats : Option (Request R))
      → StatsOk current panels stats
      → StatsOk none panels stats
  closed-StatsOk current panels none h = tt
  closed-StatsOk none panels (some q) h = h
  closed-StatsOk (some c) panels (some q) h = h.0

  closed-AreaOk :
      (current : Option String) (panels : ℕ) (area : Area R)
      → AreaOk current panels area
      → AreaOk none panels area
  closed-AreaOk current panels skeleton h = tt
  closed-AreaOk current panels blank h = tt
  closed-AreaOk none panels area h = h
  closed-AreaOk (some c) panels (plot q) h = h.0
  closed-AreaOk (some c) panels (no_data q) h = h.0
  closed-AreaOk (some c) panels (states q) h = h.0

  drawn-AreaOk :
      (current : Option String) (panels : ℕ) (numeric : Bool) (q : Request R) (samples : Bool)
      → Belongs current panels q
      → AreaOk current panels (drawn numeric q samples)
  drawn-AreaOk current panels true q true h = h
  drawn-AreaOk current panels true q false h = h
  drawn-AreaOk current panels false q samples h = h

  current-Belongs :
      (current : Option String) (panels : ℕ) (q : Request R)
      → is_current current q.id ≡ true
      → q.panel ≡ panels
      → Belongs current panels q
  current-Belongs none panels q e p = p
  current-Belongs (some c) panels q e p = (p, sym ((eq_iff c q.id).0 e))

  on_history-IsSound :
      (d : Drawer R) (q : Request R) (samples : Bool) → IsSound d → IsSound (on_history d q samples)
  unfolding on_history
  on_history-IsSound d q samples h = elim (Bool-cases (is_current d.current_id q.id)) [
    | inr other ↦ rw (other, on_history) h
    | inl same ↦ elim (Bool-cases (q.panel == d.panels)) [
      | inl here ↦
          let mine = current-Belongs d.current_id d.panels q same (ground arith) in
          rw (same, here, on_history)
            (record {
              seen = h.seen;
              stats_ok = mine;
              area_ok = drawn-AreaOk d.current_id d.panels q.numeric q samples mine;
            })
      | inr gone ↦
          rw (same, gone, on_history)
            (record {
              seen = h.seen;
              stats_ok = h.stats_ok;
              area_ok = without_chart-AreaOk d.chart d.current_id d.panels d.area h.area_ok;
            })
    ]
  ]

  step-IsSound : (d : Drawer R) (s : Step R) → IsSound d → IsSound (step d s)
  unfolding step
  step-IsSound d closing h = record {
    seen = refl;
    stats_ok = closed-StatsOk d.current_id d.panels d.stats h.stats_ok;
    area_ok =
        without_chart-AreaOk d.chart none d.panels d.area
          (closed-AreaOk d.current_id d.panels d.area h.area_ok);
  }
  step-IsSound d (opening none id range) h = h
  step-IsSound d (opening (some e) id range) h = record { seen = refl; stats_ok = tt; area_ok = tt }
  step-IsSound d (answer i samples) h = elim (Option-cases (get_elem? d.waiting i)) [
    | inl missing ↦ rw (missing, on_answer) h
    | inr (q, found) ↦
        rw (found, on_answer)
          (on_history-IsSound (record d { waiting = erase_at d.waiting i }) q samples
            (record { seen = h.seen; stats_ok = h.stats_ok; area_ok = h.area_ok }))
  ]

  -- However openings, closings and answers follow one another, the figures and the chart on the page
  -- come from an answer that the panel itself asked for, and belong to the entity that it is open for;
  -- it is hidden exactly while it is open for none.
  pub steps-IsSound : (d : Drawer R) (ss : List (Step R)) → IsSound d → IsSound (steps d ss)
  unfolding steps
  steps-IsSound d [] h = h
  steps-IsSound d (s ∷ ss) h = steps-IsSound (step d s) ss (step-IsSound d s h)
