-- ===== src/Overview/Flow.antt =====
-- `renderFlow` of web/nasa_web/static/js/views/overview.js: what the schematic shows.
use nasa_cpp.Base.{
  ℕ, ◌≡◌, refl, ◌⊎◌, inl, inr, Bool, true, false, not, ◌&&◌, ◌||◌, Option, none, some, String,
  arith, or_else, str_eq, if◌then◌else◌, ◌==◌,
}
use nasa_cpp.Base.Number.{Number, IsRounded, ◌⊖◌, ◌⊘◌, ◌≼◌, max_num, min_num}
use nasa_cpp.Store.{Store, val, text}
use nasa_cpp.Store.Names
use nasa_cpp.Store.WaterLaw.{outlet_target}

pub data ZoneTarget (R : Type 0) : Type 0 where
  off unknown : ZoneTarget R
  target : R → ZoneTarget R

pub record Schematic (R : Type 0) : Type 0 where
  pub running : Bool
  pub fan_on : Bool
  pub fan_speed : R  -- seconds
  pub pipe_duration : R  -- seconds
  pub heat_idle : Bool  -- p-heat-s, p-heat-r
  pub tank_idle : Bool  -- p-tank-s, p-tank-r
  pub main_idle : Bool  -- p-main-s, p-main-r
  pub house_active : Bool
  pub tank_active : Bool
  pub level : R  -- of the tank's fill
  pub spread : Option R  -- ΔT flow / return

-- `valve === "TANK"`
abbrev pub is_text : Option String → String → Bool
is_text none t = false
is_text (some s) t = str_eq s t

module _ {R : Type 0} ⦃num : Number R⦄ where
  -- `tank == null ? 0 : Math.max(0.05, Math.min(1, (tank - 20) / 45))`
  unfoldable pub tank_level : Option R → R
  tank_level none = num.of_nat 0
  tank_level (some t) =
      max_num (num.decimal 5 2) (min_num (num.of_nat 1) ((t ⊖ num.of_nat 20) ⊘ num.of_nat 45))

  abbrev difference : Option R → Option R → Option R
  difference (some a) (some b) = some (a ⊖ b)
  difference _ _ = none

  module _ (lower : String → String) (show : R → String) where
    unfoldable pub schematic : Store R → Schematic R
    unfolding tank_level
    schematic s =
        let flow = or_else (val lower s Names.flow) (num.of_nat 0) in
        let rpm = or_else (val lower s Names.fan) (num.of_nat 0) in
        let to_tank = is_text (text lower show s Names.valve) "TANK" in
        let running = num.lt (num.decimal 5 1) flow in
        record {
          running = running;
          fan_on = num.lt (num.of_nat 0) rpm;
          fan_speed = max_num (num.decimal 25 2) (num.of_nat 320 ⊘ max_num rpm (num.of_nat 1));
          pipe_duration =
              max_num (num.decimal 35 2)
                (min_num (num.decimal 25 1) (num.of_nat 14 ⊘ max_num flow (num.of_nat 1)));
          heat_idle = not (not to_tank) || not running;
          tank_idle = not to_tank || not running;
          main_idle = not true || not running;
          house_active = not to_tank;
          tank_active = to_tank;
          level = tank_level (val lower s Names.tank);
          spread = difference (val lower s Names.water_out) (val lower s Names.water_in);
        }

    -- One round of the loop over the zones: `#f-z1-t` and `#f-z2-t`.
    unfoldable pub zone_target : Store R → ℕ → ZoneTarget R
    zone_target s zone =
        if is_text (text lower show s (if zone == 1 then Names.zone1 else Names.zone2)) "OFF"
        then off
        else elim (outlet_target lower show s zone) [ none ↦ unknown | some t ↦ target t ]

    -- While water flows the main pipes move, and of the two branches exactly the one moves whose
    -- target is marked as active; while it stands still no pipe moves.
    schematic_branches :
        (s : Store R)
        → let c = schematic s in
          (c.main_idle ≡ not c.running)
          × (c.heat_idle ≡ not (c.running && c.house_active))
          × (c.tank_idle ≡ not (c.running && c.tank_active))
          × (c.house_active ≡ not c.tank_active)
    unfolding schematic
    schematic_branches s = ground arith

  module _ (laws : IsRounded R) where
    open laws use {ordered, of_nat_mono, decimal_nonneg, decimal-le}
    open ordered use {le_refl, le_trans, le_total, lt-eq-not-le}

    -- The tank is drawn between empty and full, whatever its temperature, and never quite empty
    -- where the temperature is known.
    tank_level_bounds :
        (t : Option R)
        → (num.of_nat 0 ≼ tank_level t)
          × (tank_level t ≼ num.of_nat 1)
          × ((t ≡ none) ⊎ (num.decimal 5 2 ≼ tank_level t))
    unfolding tank_level
    tank_level_bounds none = (le_refl (num.of_nat 0), of_nat_mono 0 1 (omega arith), inl refl)
    tank_level_bounds (some t) =
        let floor = num.decimal 5 2 in
        let part = (t ⊖ num.of_nat 20) ⊘ num.of_nat 45 in
        let full = min_num (num.of_nat 1) part in
        let small = decimal-le 5 2 1 (omega arith) in
        let capped : full ≼ num.of_nat 1 = ground (
          arith,
          le_refl (num.of_nat 1),
          lt-eq-not-le part (num.of_nat 1),
          le_total part (num.of_nat 1),
        ) in
        let above : floor ≼ max_num floor full =
          ground (arith, le_refl floor, lt-eq-not-le floor full, le_total floor full) in
        (
          le_trans (num.of_nat 0) floor (max_num floor full) (decimal_nonneg 5 2) above,
          ground (arith, small, capped),
          inr above,
        )
