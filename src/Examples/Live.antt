-- ===== src/Examples/Live.antt =====
-- The live store at concrete inputs (web/nasa_web/static/js/store.js and app.js).
use nasa_cpp.Base.{◌≡◌, none, some, [], ◌∷◌, arith, eq_iff, false}
use nasa_cpp.Base.Int.{int_number, ℤ, pos}
use nasa_cpp.Store.{Store, Message, on_message, ent, by_id, set_entities, add_entities}
use nasa_cpp.Store.Coherence.{IsCoherent, on_message-IsCoherent, Distinct}
use nasa_cpp.Store.Lookup.{ent-state, last_with}
use nasa_cpp.Store.Refinement.{store_refines_list, run_messages, listed_run, unfilled}
use nasa_cpp.Store.Connection.{Link}
use nasa_cpp.Examples.Data.{plain, two, outer, good, empty_store}

two-Distinct : Distinct two
two-Distinct = ((ground (arith, eq_iff "4204" "4238"), tt), (tt, tt))

abbrev served : Store ℤ
served = (on_message plain empty_store (Message.snapshot two good)).0

served-IsCoherent : IsCoherent plain served []
served-IsCoherent =
    on_message-IsCoherent plain empty_store (Message.snapshot two good) two-Distinct
      (record { ids = tt; names = tt })

on_message-IsCoherent_example :
    IsCoherent plain
      (on_message plain served (Message.state "4204" (some (pos 7)) none (pos 100))).0
      []
on_message-IsCoherent_example =
    on_message-IsCoherent plain served (Message.state "4204" (some (pos 7)) none (pos 100)) tt
      served-IsCoherent

ent-state_example :
    ent plain
      (on_message plain served (Message.state "4204" (some (pos 7)) none (pos 100))).0
      "Temp Outer"
    ≡ some (record outer { value = some (pos 7); text = none; updated = some (pos 100) })
unfolding on_message ent set_entities add_entities
ent-state_example =
    ent-state plain served "4204" (some (pos 7)) none (pos 100) "Temp Outer" served-IsCoherent

abbrev link : Link ℤ
link = record { store = empty_store; retry = 1000 }

store_refines_list_example :
    let ms = Message.snapshot two good ∷ Message.state "4204" (some (pos 7)) none (pos 100) ∷ [] in
    let s = run_messages plain (unfilled good) ms in
    let a = listed_run (record { list = []; status = good; ready = false }) ms in
    (by_id s "4204" ≡ last_with (λ e. e.id) "4204" a.list)
    × (ent plain s "Temp Outer" ≡ last_with (λ e. e.name) "Temp Outer" a.list)
    × (s.status ≡ a.status)
    × (s.ready ≡ a.ready)
store_refines_list_example =
    store_refines_list plain good
      (Message.snapshot two good ∷ Message.state "4204" (some (pos 7)) none (pos 100) ∷ []) "4204"
      "Temp Outer" (two-Distinct, (tt, tt))
