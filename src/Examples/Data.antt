-- ===== src/Examples/Data.antt =====
-- Entities, stores and panels that the examples share.
use nasa_cpp.Base.{ℕ, Option, none, some, List, [], ◌∷◌, String, true, false}
use nasa_cpp.Base.Int.{ℤ, pos}
use nasa_cpp.Entity.{Entity, Status, numeric}
use nasa_cpp.Store.{Store}

-- `toLowerCase`, on names that have no upper case
abbrev pub plain : String → String
plain s = s

abbrev pub locale_int : ℤ → ℕ → String
locale_int v d = "7"

abbrev pub sensor : String → String → Option ℤ → Entity ℤ
sensor id name value = record {
  id = id;
  name = name;
  platform = "number";
  category = "heating";
  kind = numeric;
  unit = some "°C";
  state_class = none;
  options = [];
  min = some (pos 15);
  max = some (pos 25);
  step = some (pos 1);
  writable = true;
  value = value;
  text = none;
  updated = none;
}

abbrev pub outer : Entity ℤ
outer = sensor "4204" "Temp Outer" (some (pos 5))

abbrev pub water : Entity ℤ
water = sensor "4238" "Temp Water Out" (some (pos 35))

abbrev pub two : List (Entity ℤ)
two = outer ∷ water ∷ []

abbrev pub good : Status ℤ
good = record { mqtt = true; read_only = false; broker = none; last_message = none }

abbrev pub empty_store : Store ℤ
empty_store = record {
  objects = [];
  entities = [];
  by_name = [];
  status = good;
  ws_connected = true;
  ready = false;
}
