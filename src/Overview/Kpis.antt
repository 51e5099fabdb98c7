-- ===== src/Overview/Kpis.antt =====
-- `renderKpis` and `loadHistory` of web/nasa_web/static/js/views/overview.js: the tiles at the top, and
-- the history of the last day that fills them and the charts.
pub mod Sparks
use nasa_cpp.Base.{
  ℕ, Bool, true, false, Option, none, some, List, [], ◌∷◌, ◌++◌, map, String, JsMap, lookup, insert,
  str_eq, or_else, add_new, if◌then◌else◌, length,
}
use nasa_cpp.Base.Text.{codes}
use nasa_cpp.Base.Number.{Number}
use nasa_cpp.Entity.{Entity, Kind, binary}
use nasa_cpp.Store.{Store, ent, val}
use nasa_cpp.Store.Names
use nasa_cpp.Store.Heat.{heat_output, live_cop}
use nasa_cpp.Format.Units.{Reading, entity_value, has_unit, power, print_num}
use nasa_cpp.Charts.Sparkline.{Command, points, least, greatest, sparkline}
use nasa_cpp.Overview.Resample.{resample}

-- The line below the value of a tile.
pub data Meta : Type 0 where
  no_meta : Meta
  day_range : String → String → String → Meta  -- lowest, highest, unit
  target : String → Meta

pub record Tile (R : Type 0) : Type 0 where
  pub id : String
  pub label : String
  pub value : List ℕ
  pub unit : String
  pub meta : Meta
  pub spark : List (Command R)

-- The last tile: without a coefficient the compressor is idle.
pub data LiveTile : Type 0 where
  idle : LiveTile
  running : String → Reading → Reading → LiveTile

-- A series of the server's answer: times with values, and times with texts.
pub record Series (R : Type 0) : Type 0 where
  pub values : List (R × Option R)
  pub texts : List (R × Option String)

-- A row of the activity chart.
pub record ActivityRow (R : Type 0) : Type 0 where
  pub label : String
  pub series : Series R
  pub order : List String

-- `KPIS`, by name and label
abbrev pub kpis : List (String × String)
kpis =
    (Names.outdoor, "Outdoor")
    ∷ (Names.water_out, "Flow temp")
    ∷ (Names.tank, "Hot water")
    ∷ (Names.outlet1, "Outlet zone 1")
    ∷ (Names.outlet2, "Outlet zone 2")
    ∷ (Names.power, "Power")
    ∷ []

-- `keys` and `states` of `loadHistory`
abbrev pub history_keys : List String
history_keys =
    Names.outdoor ∷ Names.water_out ∷ Names.water_in ∷ Names.tank ∷ Names.outlet1 ∷ Names.outlet2
    ∷ []

abbrev pub activity_states : List (String × String)
activity_states =
    (Names.valve, "3-way valve")
    ∷ (Names.op_mode, "Compressor")
    ∷ (Names.zone1, "Zone 1")
    ∷ (Names.zone2, "Zone 2")
    ∷ (Names.defrost, "Defrost")
    ∷ []

module _ {R : Type 0} ⦃num : Number R⦄ (lower : String → String) where
  module _ (locale : R → ℕ → String) where
    -- `24h ${…min…} – ${…max…}`, where there is a value
    abbrev range_meta : Bool → String → List R → Meta
    range_meta watts unit [] = no_meta
    range_meta watts unit (v ∷ vs) =
        let d = if watts then 0 else 1 in
        day_range (print_num locale (some (least v vs)) d)
          (print_num locale (some (greatest v vs)) d) unit

    abbrev spark_meta : Entity R → Option (List (Option R)) → Meta
    spark_meta e none = no_meta
    spark_meta e (some series) =
        range_meta (has_unit e.unit "W") (or_else e.unit "") (points series)

    abbrev tank_meta : Bool → Option R → Meta → Meta
    tank_meta is_tank none meta = meta
    tank_meta is_tank (some t) meta = if is_tank then target (print_num locale (some t) 0) else meta

    -- A tile; `sparks` is `sparkData`.
    unfoldable pub tile : Store R → JsMap (List (Option R)) → String → String → Entity R → Tile R
    tile s sparks name label e =
        let series = lookup e.id sparks in
        let watts = has_unit e.unit "W" in
        let p = power locale e.value in
        record {
          id = e.id;
          label = label;
          value = if watts then codes p.v else entity_value locale (some e);
          unit = if watts then p.u else or_else e.unit "";
          meta =
              tank_meta (str_eq name Names.tank) (val lower s Names.dhw_target)
                (spark_meta e series);
          spark = elim series [
            | none ↦ []
            | some vs ↦ sparkline vs (num.of_nat 200) (num.of_nat 42)
          ];
        }

    unfoldable pub tiles_of :
        Store R → JsMap (List (Option R)) → List (String × String) → List (Tile R)
    unfolding tile
    tiles_of s sparks [] = []
    tiles_of s sparks ((name, label) ∷ ks) = elim (ent lower s name) [
      | none ↦ tiles_of s sparks ks
      | some e ↦ tile s sparks name label e ∷ tiles_of s sparks ks
    ]

    unfoldable pub live_tile : Store R → LiveTile
    live_tile s = elim (live_cop lower s) [
      | none ↦ idle
      | some cop ↦
          running (print_num locale (some cop) 2) (power locale (heat_output lower s))
            (power locale (val lower s Names.power))
    ]

    -- `renderKpis`
    unfoldable pub render_kpis : Store R → JsMap (List (Option R)) → List (Tile R) × LiveTile
    unfolding tiles_of live_tile
    render_kpis s sparks = (tiles_of s sparks kpis, live_tile s)

  -- `ids` of `loadHistory`: the ids of the known entities, each once
  unfoldable pub known_ids : Store R → List String → List String → List String
  known_ids s [] ids = ids
  known_ids s (name ∷ names) ids = elim (ent lower s name) [
    | none ↦ known_ids s names ids
    | some e ↦ known_ids s names (if str_eq e.id "" then ids else add_new ids e.id)
  ]

  unfoldable pub history_ids : Store R → List String
  unfolding known_ids
  history_ids s =
      known_ids s (history_keys ++ Names.power ∷ map (λ (x : String × String). x.0) activity_states)
        []

  -- `res.series[ent(name)?.id]`
  abbrev pub series_of : Store R → JsMap (Series R) → String → Option (Series R)
  series_of s answer name = elim (ent lower s name) [ none ↦ none | some e ↦ lookup e.id answer ]

  -- `s ? [s.t, s.v] : [[], []]`
  abbrev pub table_of : Option (Series R) → List (R × Option R)
  table_of none = []
  table_of (some x) = x.values

  -- What `chart.setData` gets.
  unfoldable pub history_tables : Store R → JsMap (Series R) → List (List (R × Option R))
  history_tables s answer = map (λ name. table_of (series_of s answer name)) history_keys

  abbrev order_of : Entity R → List String
  order_of e = elim e.kind [ binary ↦ "ON" ∷ "OFF" ∷ [] | _ ↦ e.options ]

  -- `rows`
  unfoldable pub activity_rows :
      Store R → JsMap (Series R) → List (String × String) → List (ActivityRow R)
  activity_rows s answer [] = []
  activity_rows s answer ((name, label) ∷ xs) =
      let rest = activity_rows s answer xs in
      elim (ent lower s name) [
        | none ↦ rest
        | some e ↦ elim (lookup e.id answer) [
          | none ↦ rest
          | some x ↦ record { label = label; series = x; order = order_of e } ∷ rest
        ]
      ]

  -- `sparkData`, filled anew
  unfoldable pub spark_data :
      Store R
      → JsMap (Series R)
      → R
      → R
      → List (String × String)
      → JsMap (List (Option R))
      → JsMap (List (Option R))
  spark_data s answer start finish [] sparks = sparks
  spark_data s answer start finish ((name, label) ∷ ks) sparks = elim (ent lower s name) [
    | none ↦ spark_data s answer start finish ks sparks
    | some e ↦ elim (lookup e.id answer) [
      | none ↦ spark_data s answer start finish ks sparks
      | some x ↦
          spark_data s answer start finish ks
            (insert e.id (resample x.values start finish 60) sparks)
    ]
  ]
