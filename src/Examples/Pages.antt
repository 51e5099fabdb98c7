-- ===== src/Examples/Pages.antt =====
-- The pages and the router at concrete inputs.
use nasa_cpp.Base.{Bool, ◌||◌, ℕ, ◌≡◌, refl, none, some, false, true, [], ◌∷◌, List}
use nasa_cpp.Base.Int.{int_number, ℤ, pos}
use nasa_cpp.Base.Text.{codes}
use nasa_cpp.Format.Escape.{same_text}
use nasa_cpp.App.{
  App, page, history, unmount, run_app, route_name, view_named, snapshot, hash_change,
}
use nasa_cpp.App.Routes.{Shows, shown, run_app-Shows, inherited_name_blanks}
use nasa_cpp.Views.History.{Range}

abbrev loading : App
loading = record { current = none; current_name = none; ready = false }

-- Some names that every JavaScript object has.
abbrev inherited : List ℕ → Bool
inherited name = same_text name (codes "constructor") || same_text name (codes "toString")

run_app-Shows_example :
    Shows none (run_app inherited loading (snapshot [] ∷ hash_change (codes "history") ∷ [])).1 (
      shown
        (run_app inherited loading (snapshot [] ∷ hash_change (codes "history") ∷ [])).0.current)
run_app-Shows_example =
    run_app-Shows inherited loading (snapshot [] ∷ hash_change (codes "history") ∷ [])

abbrev on_history_page : App
on_history_page = record {
  current = some (page history);
  current_name = some (codes "history");
  ready = true;
}

inherited_name_blanks_example :
    let run =
      run_app inherited on_history_page (hash_change (codes "constructor") ∷ snapshot [] ∷ []) in
    (run.1 ≡ unmount history ∷ []) × (shown run.0.current ≡ none)
unfolding view_named route_name
inherited_name_blanks_example =
    inherited_name_blanks inherited on_history_page (codes "constructor") (snapshot [] ∷ []) refl
      refl refl tt

abbrev day : Range ℤ
day = record { span = pos 86_400; finish = none }

abbrev field_names : List (List ℕ)
field_names = codes "FSV 2011" ∷ codes "FSV 3011" ∷ codes "FSV 9999" ∷ []
