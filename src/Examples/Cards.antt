-- ===== src/Examples/Cards.antt =====
-- The card of controls, a switch, the custom charts and the pictures of numbers at concrete inputs.
use nasa_cpp.Base.{
  not, lookup, is_null, Bool, ◌≡◌, refl, inl, NoRepeat, All, Option, none, some, List, [], ◌∷◌,
  true, false, arith, eq_iff, String,
}
use nasa_cpp.Base.Int.{int_number, ℤ, pos, ℤ-IsRounded}
use nasa_cpp.Entity.{Entity, enum}
use nasa_cpp.Controls.{Panel}
use nasa_cpp.Controls.Burst.{fresh}
use nasa_cpp.Controls.Widget.{Widget}
use nasa_cpp.Controls.Switch.{
  Switch, switch_run, change, result, switch_answered, Shows, last_command,
}
use nasa_cpp.Charts.Timeline.Legend.{Bar, drawn_row}
use nasa_cpp.Charts.Timeline.Legend.Agreement.{has_key, has_bar, drawn_row_lem}
use nasa_cpp.Charts.Lines.{Table, LineEvent, tables, toggle, theme}
use nasa_cpp.Charts.Sparkline.{sparkline}
use nasa_cpp.Charts.Sparkline.Bounds.{Within, lines, sparkline-Within}
use nasa_cpp.Overview.Controls.{
  Box, chosen, drawn, controls_of, render_controls, render, patch_all, key_of, settle_choice,
  choose, html_of,
}
use nasa_cpp.Overview.Controls.Key.{NoComma}
use nasa_cpp.Overview.Controls.Patch.{entity_ids, faces, full, IsKept, IsCalm}
use nasa_cpp.Overview.Controls.Order.{IsRanked}
use nasa_cpp.Overview.Controls.Repaint.{
  empty_box, face_of, render_controls_lem, failed_choice_stays,
}
use nasa_cpp.Base.Grouping.{group_by}
use nasa_cpp.Views.Custom.{unit_groups}
use nasa_cpp.Views.Custom.Loads.{Host, load_custom, on_series, overlapping_loads}
use nasa_cpp.Examples.Data.{sensor, outer, water, good, locale_int}

abbrev in_control : Entity ℤ → Entity ℤ
in_control e = record e { category = "control" }

abbrev mode_control : Entity ℤ
mode_control = record (in_control (sensor "4001" "Operation Mode" none)) {
  kind = enum;
  options = "AUTO" ∷ "HEAT" ∷ [];
  text = some "AUTO";
}

-- Two controls and a sensor that is none.
abbrev devices : List (Entity ℤ)
devices = in_control outer ∷ water ∷ mode_control ∷ []

abbrev name_markup : Entity ℤ → Widget → String
name_markup e w = e.name

abbrev keeps_order : String → String → Bool
keeps_order a b = false

devices-NoRepeat : NoRepeat (entity_ids devices)
devices-NoRepeat = (
  (ground (arith, eq_iff "4204" "4238"), (ground (arith, eq_iff "4204" "4001"), tt)),
  ((ground (arith, eq_iff "4238" "4001"), tt), (tt, tt)),
)

devices-NoComma : All NoComma (entity_ids devices)
devices-NoComma = (ground arith, (ground arith, (ground arith, tt)))

abbrev painted : Panel ℤ → Box ℤ → List (Entity ℤ) → Box ℤ
painted c b all = render_controls locale_int name_markup keeps_order good c b all

abbrev first_box : Box ℤ
first_box = painted fresh empty_box devices

first_box_lem : IsKept first_box × All IsCalm first_box.slots
first_box_lem =
    let (shown, ranked, kept, calm) =
      render_controls_lem locale_int name_markup keeps_order good fresh empty_box devices
        (inl (refl, inl refl)) tt devices-NoRepeat devices-NoComma in
    (kept, calm)

-- The controls are rendered a second time.
render_controls_lem_example :
    let b = painted fresh first_box devices in
    (faces (html_of locale_int name_markup good fresh) b.slots
      ≡ full (html_of locale_int name_markup good fresh) (controls_of keeps_order devices))
    × IsRanked (controls_of keeps_order devices)
    × IsKept b
    × All IsCalm b.slots
render_controls_lem_example =
    render_controls_lem locale_int name_markup keeps_order good fresh first_box devices
      first_box_lem.0 first_box_lem.1 devices-NoRepeat devices-NoComma

failed_choice_stays_example :
    face_of "4001"
      (settle_choice locale_int name_markup false keeps_order good fresh
        (choose (painted fresh first_box devices) "4001" "HEAT")
        devices).slots
    ≡ some (chosen "HEAT")
unfolding render_controls render patch_all key_of controls_of html_of
failed_choice_stays_example =
    failed_choice_stays locale_int name_markup keeps_order good fresh first_box devices "4001"
      "HEAT" (drawn "Operation Mode") first_box_lem.0 first_box_lem.1 devices-NoRepeat
      devices-NoComma refl

-- The outdoor sensor gets another name and other limits.
abbrev renamed : List (Entity ℤ)
renamed =
    record (in_control outer) { name = "Temp Outside"; max = some (pos 30) }
    ∷ water
    ∷ mode_control
    ∷ []

-- Two clicks; the first command fails, the second does not.
switch_answered_example :
    let off : Switch = record { checked = false; waiting = [] } in
    let asked = switch_run off (change true ∷ change true ∷ []) in
    let s = switch_run asked (result 0 false ∷ result 0 true ∷ []) in
    Shows (not s.checked) (last_command asked.waiting) × (s.waiting ≡ [])
switch_answered_example =
    switch_answered (record { checked = false; waiting = [] }) 1 ((0, false) ∷ (0, true) ∷ []) refl
      (omega arith, (omega arith, tt))

abbrev host : Host ℤ
host = record { charts = []; waiting = [] }

overlapping_loads_example :
    let both = load_custom (load_custom host (outer ∷ [])) (outer ∷ water ∷ []) in
    let one : String × List (Entity ℤ) = ("°C", outer ∷ []) in
    let two : String × List (Entity ℤ) = ("°C", outer ∷ water ∷ []) in
    ((on_series (load_custom host (outer ∷ [])) 0).charts ≡ one ∷ [])
    × ((on_series (on_series both 0) 0).charts ≡ one ∷ two ∷ [])
    × ((on_series (on_series both 1) 0).charts ≡ two ∷ one ∷ [])
unfolding unit_groups group_by
overlapping_loads_example = overlapping_loads host outer outer [] (water ∷ []) refl

abbrev day : List (Option ℤ)
day = none ∷ some (pos 3) ∷ some (pos 5) ∷ none ∷ some (pos 4) ∷ []

sparkline-Within_example :
    All (Within (pos 200) (pos 5) (pos 39)) (sparkline day (pos 200) (pos 42))
    × (lines (sparkline day (pos 200) (pos 42)) ≡ 1)
sparkline-Within_example =
    sparkline-Within ℤ-IsRounded day (pos 200) (pos 42) refl refl refl (omega arith)

abbrev sample : Table ℤ
sample = (pos 0 ∷ [], some (pos 7) ∷ [])

-- Two series of one sample each; the second is hidden before the theme changes.
abbrev legend_events : List (LineEvent ℤ)
legend_events = tables (sample ∷ sample ∷ []) ∷ toggle 1 ∷ theme ∷ []

-- A row in which one of three states is hidden.
drawn_row_lem_example :
    let (bs, entries) =
      drawn_row
        (pos 0)
        (pos 100)
        (pos 90)
        ("ON" ∷ "OFF" ∷ [])
        ("OFF" ∷ [])
        (pos 10 ∷ pos 20 ∷ pos 50 ∷ [])
        (some "ON" ∷ some "OFF" ∷ some "DEFROST" ∷ []) in
    (has_key entries "DEFROST" ≡ has_bar bs "DEFROST")
    × All (λ (b : Bar ℤ). (lookup b.state entries ≡ b.colour) × (is_null b.colour ≡ false)) bs
drawn_row_lem_example =
    drawn_row_lem (pos 0) (pos 100) (pos 90) ("ON" ∷ "OFF" ∷ []) ("OFF" ∷ [])
      (pos 10 ∷ pos 20 ∷ pos 50 ∷ []) (some "ON" ∷ some "OFF" ∷ some "DEFROST" ∷ []) "DEFROST"
