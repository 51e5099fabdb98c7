-- ===== src/Page.antt =====
-- The page as a whole: what web/nasa_web/static/js/app.js does with the events of store.js, and with
-- the side panel of drawer.js.
pub mod Start
pub mod Truth
pub mod Panel
use nasa_cpp.Base.{
  ℕ, Bool, true, false, Option, none, some, List, [], ◌∷◌, ◌++◌, String, if◌then◌else◌, get_elem?,
}
use nasa_cpp.Base.Number.{Number}
use nasa_cpp.Entity.{Entity, Status}
use nasa_cpp.Store.{Store, Message, Event, connection, snapshot, state, on_message, by_id}
use nasa_cpp.Store.Connection.{Link, SocketEvent, on_socket, first_retry}
use nasa_cpp.Store.Refinement.{unfilled}
use nasa_cpp.App
use nasa_cpp.App.Badge.{Badge, badge}
use nasa_cpp.Drawer.{Drawer, close, open_entity, on_answer, refreshes, blank}

pub record Screen (R : Type 0) : Type 0 where
  pub link : Link R
  pub app : App.App
  pub drawer : Drawer R
  pub now_shown : Option (Entity R)  -- what `#drawer-now` was last written from
  pub label : Option Badge  -- what the badge was last written with

-- What the clock and the address bar say when something happens.
pub record Moment (R : Type 0) : Type 0 where
  pub now : R
  pub fragment : List ℕ

pub data Happening (R : Type 0) : Type 0 where
  socket : SocketEvent → Happening R
  message : Message R → Happening R
  hash_change tick escape close_button : Happening R
  open_panel : String → R → Happening R
  answer : ℕ → Bool → Happening R

-- The page when app.js has been loaded.
unfoldable pub start : {R : Type 0} → Status R → Screen R
unfolding unfilled
start st = record {
  link = record { store = unfilled st; retry = first_retry };
  app = record { current = none; current_name = none; ready = false };
  drawer = record {
    hidden = true;
    current_id = none;
    chart = none;
    panels = 0;
    stats = none;
    area = blank;
    waiting = [];
  };
  now_shown = none;
  label = none;
}

module _ {R : Type 0} ⦃num : Number R⦄ where
  -- `renderConnection`
  abbrev pub render_connection : Screen R → R → Screen R
  render_connection pg now = record pg { label = some (badge now pg.link.store) }

  -- `refreshDrawer(e)`, as far as it writes the value
  unfoldable pub refresh_drawer : Screen R → Option (Entity R) → Screen R
  refresh_drawer pg none = pg
  refresh_drawer pg (some e) =
      if refreshes pg.drawer e then record pg { now_shown = some e } else pg

  -- `openEntity(id, range)`
  unfoldable pub open_panel_of : Screen R → String → R → Screen R
  open_panel_of pg id range = elim (by_id pg.link.store id) [
    | none ↦ pg
    | some e ↦ record pg { drawer = open_entity pg.drawer (some e) id range; now_shown = some e }
  ]

  module _ (lower : String → String) (inherited : List ℕ → Bool) where
    -- The function that app.js gives to `subscribe`.
    unfoldable pub listener : Screen R → Moment R → Event → Screen R × List App.Call
    unfolding refresh_drawer
    listener pg m connection = (render_connection pg m.now, [])
    listener pg m snapshot =
        let pg' = render_connection pg m.now in
        let (app, calls) = App.on_event inherited pg.app (App.snapshot m.fragment) in
        (record pg' { app = app }, calls)
    listener pg m (state p) =
        let (app, calls) = App.on_event inherited pg.app (App.state m.fragment) in
        (refresh_drawer (record pg { app = app }) (get_elem? pg.link.store.objects p), calls)

    -- `emit`, for each event in turn
    unfoldable pub emit_all : Screen R → Moment R → List Event → Screen R × List App.Call
    emit_all pg m [] = (pg, [])
    emit_all pg m (e ∷ es) =
        let (pg', calls) = listener pg m e in
        let (pg'', later) = emit_all pg' m es in (pg'', calls ++ later)

    unfoldable pub happen : Screen R → Moment R → Happening R → Screen R × List App.Call
    unfolding emit_all open_panel_of
    happen pg m (socket e) =
        let h = on_socket pg.link e in emit_all (record pg { link = h.link }) m h.events
    happen pg m (message msg) =
        let (s, events) = on_message lower pg.link.store msg in
        emit_all (record pg { link = record (pg.link) { store = s } }) m events
    happen pg m hash_change =
        let (app, calls) = App.on_event inherited pg.app (App.hash_change m.fragment) in
        (record pg { drawer = close pg.drawer; app = app }, calls)
    happen pg m tick = (render_connection pg m.now, [])
    happen pg m escape =
        (if pg.drawer.hidden then pg else record pg { drawer = close pg.drawer }, [])
    happen pg m close_button = (record pg { drawer = close pg.drawer }, [])
    happen pg m (open_panel id range) = (open_panel_of pg id range, [])
    happen pg m (answer i samples) = (record pg { drawer = on_answer pg.drawer i samples }, [])

    unfoldable pub run_page : Screen R → List (Moment R × Happening R) → Screen R × List App.Call
    run_page pg [] = (pg, [])
    run_page pg ((m, h) ∷ hs) =
        let (pg', calls) = happen pg m h in
        let (pg'', later) = run_page pg' hs in (pg'', calls ++ later)
