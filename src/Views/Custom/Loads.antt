-- ===== src/Views/Custom/Loads.antt =====
-- `loadCustom` of web/nasa_web/static/js/views/history.js: the charts of the picked sensors come some
-- time after they are asked for.
use nasa_cpp.Base.{erase_at, ℕ, ◌≡◌, refl, none, some, List, [], ◌∷◌, ◌++◌, JsMap, get_elem?}
use nasa_cpp.Entity.{Entity}
use nasa_cpp.Views.Custom.{unit_groups}

-- `#h-custom`; a chart stands for the unit and the sensors that it draws.
pub record Host (R : Type 0) : Type 0 where
  pub charts : JsMap (List (Entity R))
  pub waiting : List (JsMap (List (Entity R)))  -- calls that wait for `api.history`

module _ {R : Type 0} where
  -- Up to the call of `api.history`, where a sensor is chosen.
  unfoldable pub load_custom : Host R → List (Entity R) → Host R
  load_custom h [] = record h { charts = [] }
  load_custom h (e ∷ es) = record { charts = []; waiting = h.waiting ++ unit_groups (e ∷ es) ∷ [] }

  -- The answer to one of them: `host.append(box)` for each group.
  unfoldable pub on_series : Host R → ℕ → Host R
  on_series h i = elim (get_elem? h.waiting i) [
    | none ↦ h
    | some groups ↦ record { charts = h.charts ++ groups; waiting = erase_at h.waiting i }
  ]

  -- A call whose answer comes before the next call leaves the charts of the chosen sensors and no others.
  -- Of two calls that wait at the same time, both leave their charts, in the order of the answers: those
  -- of the first call are not taken away.
  pub overlapping_loads :
      (h : Host R) (e f : Entity R) (es fs : List (Entity R))
      → h.waiting ≡ []
      → let first = unit_groups (e ∷ es) in
        let second = unit_groups (f ∷ fs) in
        let both = load_custom (load_custom h (e ∷ es)) (f ∷ fs) in
        ((on_series (load_custom h (e ∷ es)) 0).charts ≡ first)
        × ((on_series (on_series both 0) 0).charts ≡ first ++ second)
        × ((on_series (on_series both 1) 0).charts ≡ second ++ first)
  unfolding load_custom on_series
  overlapping_loads h e f es fs idle = rw idle (refl, refl, refl)
