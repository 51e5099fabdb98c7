-- ===== src/Format/Units.antt =====
-- `num`, `decimalsFor`, `entityValue`, `power` and `energy` of web/nasa_web/static/js/format.js.
-- `locale v d` stands for `v.toLocaleString` with exactly `d` decimals.
use nasa_cpp.Base.{
  ℕ, ◌≡◌, ◌⊎◌, Bool, false, not, ◌&&◌, ◌||◌, Option, none, some, List, String, arith, if◌then◌else◌,
  str_eq, or_else,
}
use nasa_cpp.Base.Text.{codes}
use nasa_cpp.Base.Number.{Number, IsRounded, ◌⊘◌, ◌≼◌, abs_num}
use nasa_cpp.Base.Rounding.{scaled_low, scaled_high, at_most}
use nasa_cpp.Entity.{Entity, is_numeric}
use nasa_cpp.Format.Escape.{esc}

abbrev dash : String
dash = "–"

-- `unit === text`, where the unit may be missing
abbrev pub has_unit : Option String → String → Bool
has_unit none text = false
has_unit (some u) text = str_eq u text

pub record Reading : Type 0 where
  pub v : String
  pub u : String

pub data Scale : Type 0 where
  watt kilowatt kilowatt_hour megawatt_hour : Scale

abbrev pub symbol : Scale → String
symbol watt = "W"
symbol kilowatt = "kW"
symbol kilowatt_hour = "kWh"
symbol megawatt_hour = "MWh"

-- A number in a unit, before it is printed.
pub record Scaled (R : Type 0) : Type 0 where
  pub number : R
  pub decimals : ℕ
  pub unit : Scale

module _ {R : Type 0} ⦃num : Number R⦄ where
  -- the last two lines of `decimalsFor`
  abbrev pub value_decimals : Option R → ℕ
  value_decimals none = 1
  value_decimals (some v) =
      if num.lt (abs_num v) (num.of_nat 10) && not (num.is_integer v)
      then 2
      else if num.is_integer v
      then 0
      else 1

  unfoldable pub decimals_for : Option String → Option R → ℕ
  decimals_for unit value =
      if has_unit unit "°C" || has_unit unit "L/min"
      then 1
      else if has_unit unit "W"
          || has_unit unit "Wh"
          || has_unit unit "rpm"
          || has_unit unit "Hz"
          || has_unit unit "%"
          || has_unit unit "min"
      then 0
      else value_decimals value

  unfoldable pub scale_power : R → Scaled R
  scale_power w =
      if num.le (num.of_nat 1000) (abs_num w)
      then record { number = w ⊘ num.of_nat 1000; decimals = 2; unit = kilowatt }
      else record { number = w; decimals = 0; unit = watt }

  unfoldable pub scale_energy : R → Scaled R
  scale_energy wh =
      if num.le (num.of_nat 1_000_000) (abs_num wh)
      then record { number = wh ⊘ num.of_nat 1_000_000; decimals = 2; unit = megawatt_hour }
      else record {
        number = wh ⊘ num.of_nat 1000;
        decimals = if num.lt wh (num.of_nat 10_000) then 2 else 1;
        unit = kilowatt_hour;
      }

  module _ (locale : R → ℕ → String) where
    unfoldable pub print_num : Option R → ℕ → String
    print_num none d = dash
    print_num (some v) d = if num.is_nan v then dash else locale v d

    abbrev print_scaled : Scaled R → Reading
    print_scaled s = record { v = print_num (some s.number) s.decimals; u = symbol s.unit }

    unfoldable pub power : Option R → Reading
    unfolding scale_power print_num
    power none = record { v = dash; u = "W" }
    power (some w) = print_scaled (scale_power w)

    unfoldable pub energy : Option R → Reading
    unfolding scale_energy print_num
    energy none = record { v = dash; u = "kWh" }
    energy (some wh) = print_scaled (scale_energy wh)

    -- `entityValue(e)`
    unfoldable pub entity_value : Option (Entity R) → List ℕ
    unfolding decimals_for print_num
    entity_value none = codes dash
    entity_value (some e) =
        if is_numeric e.kind
        then codes (print_num e.value (decimals_for e.unit e.value))
        else esc (some (codes (or_else e.text dash)))

  module _ (laws : IsRounded R) where
    open laws use {ordered}
    open ordered use {lt-eq-not-le}

    -- What is not negative is shown in a unit in which it is readable: at least 1 kW or 1 MWh, at
    -- most 1000 W or 1000 kWh.
    scaled_readable :
        (x : R)
        → num.of_nat 0 ≼ x
        → ((((scale_power x).unit ≡ kilowatt) × (num.of_nat 1 ≼ (scale_power x).number))
            ⊎ (((scale_power x).unit ≡ watt) × ((scale_power x).number ≼ num.of_nat 1000)))
          × ((((scale_energy x).unit ≡ megawatt_hour) × (num.of_nat 1 ≼ (scale_energy x).number))
              ⊎ (((scale_energy x).unit ≡ kilowatt_hour)
                  × ((scale_energy x).number ≼ num.of_nat 1000)))
    unfolding scale_power scale_energy
    scaled_readable x h = ground (
      arith,
      lt-eq-not-le x (num.of_nat 0),
      scaled_low laws x 1 1000 (omega arith) (omega arith) (omega arith),
      scaled_low laws x 1 1_000_000 (omega arith) (omega arith) (omega arith),
      scaled_high laws x 1000 1000 (omega arith) (omega arith) (omega arith),
      at_most laws x 1000,
      at_most laws x 1_000_000,
      lt-eq-not-le x (num.of_nat 1000),
      lt-eq-not-le x (num.of_nat 1_000_000),
    )
