-- ===== src/Page/Truth.antt =====
-- The badge of web/nasa_web/static/js/app.js while the connection comes and goes.
use nasa_cpp.Base.{
  ℕ, ◌≡◌, inl, inr, Bool, true, false, Option, none, some, List, [], ◌∷◌, String, arith, get_elem?,
  Option-cases, Bool-cases,
}
use nasa_cpp.Base.Number.{Number}
use nasa_cpp.Entity.{Status}
use nasa_cpp.Store.{Store, Message, state, on_message, by_id}
use nasa_cpp.Store.Connection.{opened, closed, on_socket}
use nasa_cpp.App
use nasa_cpp.App.Badge.{Badge, badge, server_offline, mqtt_disconnected, no_data, live}
use nasa_cpp.Page.{
  Screen, Moment, Happening, socket, message, hash_change, tick, escape, close_button, open_panel,
  answer, start, listener, emit_all, happen, run_page, open_panel_of,
}
use nasa_cpp.Page.Start.{state_message_flags, refresh_drawer-kept}

-- What is out of order: the server, or behind it the broker, or neither.
pub data Outage : Type 0 where
  server broker nothing : Outage

abbrev pub outage_told : Badge → Outage
outage_told server_offline = server
outage_told mqtt_disconnected = broker
outage_told no_data = nothing
outage_told live = nothing

abbrev pub outage_is : Bool → Bool → Outage
outage_is false mqtt = server
outage_is true false = broker
outage_is true true = nothing

-- A badge that has been written tells the outage there is.
abbrev pub TellsOutage : Option Badge → Bool → Bool → Type 0
TellsOutage none connected mqtt = Unit
TellsOutage (some b) connected mqtt = outage_told b ≡ outage_is connected mqtt

module _ {R : Type 0} ⦃num : Number R⦄ where
  badge-outage :
      (now : R) (s : Store R) → outage_told (badge now s) ≡ outage_is s.ws_connected s.status.mqtt
  unfolding badge
  badge-outage now s = ground arith

  abbrev Honest : Screen R → Type 0
  Honest pg = TellsOutage pg.label pg.link.store.ws_connected pg.link.store.status.mqtt

  module _ (lower : String → String) (inherited : List ℕ → Bool) where
    state-Honest :
        (pg : Screen R) (m : Moment R) (p : ℕ)
        → Honest pg
        → Honest (listener lower inherited pg m (state p)).0
    unfolding listener
    state-Honest pg m p h =
        let pg' : Screen R = record pg {
          app = (App.on_event inherited pg.app (App.state m.fragment)).0;
        } in
        let (l, a, label, drawer) = refresh_drawer-kept pg' (get_elem? pg.link.store.objects p) in
        rw (l, label) h

    happen-Honest :
        (pg : Screen R) (m : Moment R) (h : Happening R)
        → Honest pg
        → Honest (happen lower inherited pg m h).0
    unfolding happen emit_all listener on_socket on_message open_panel_of
    happen-Honest pg m (socket opened) h = badge-outage m.now _
    happen-Honest pg m (socket closed) h = badge-outage m.now _
    happen-Honest pg m (message (Message.snapshot list st)) h = badge-outage m.now _
    happen-Honest pg m (message (Message.state id value text ts)) h =
        elim (state_message_flags lower pg.link.store id value text ts) [
          | inl same ↦ rw (same, happen) h
          | inr (s', p, told, ready, up, mqtt) ↦
              let pg' : Screen R = record pg { link = record (pg.link) { store = s' } } in
              rw (told, happen, emit_all) (state-Honest pg' m p (rw (up, mqtt) h))
        ]
    happen-Honest pg m (message (Message.status st)) h = badge-outage m.now _
    happen-Honest pg m (message Message.other) h = h
    happen-Honest pg m hash_change h = h
    happen-Honest pg m tick h = badge-outage m.now _
    happen-Honest pg m escape h = elim (Bool-cases pg.drawer.hidden) [
      | inl e ↦ rw (e, happen) h
      | inr e ↦ rw (e, happen) h
    ]
    happen-Honest pg m close_button h = h
    happen-Honest pg m (open_panel id range) h = elim (Option-cases (by_id pg.link.store id)) [
      | inl e ↦ rw (e, open_panel_of) h
      | inr (e, found) ↦ rw (found, open_panel_of) h
    ]
    happen-Honest pg m (answer i samples) h = h

    -- From the start of the page, after anything that happens, the badge, once it is written, tells the
    -- outage that there is: that the server is offline exactly if the socket is down, and that the
    -- broker is disconnected exactly if the socket is up and the last status says so.
    pub run_page-TellsOutage :
        (st : Status R) (hs : List (Moment R × Happening R))
        → let pg = (run_page lower inherited (start st) hs).0 in
          TellsOutage pg.label pg.link.store.ws_connected pg.link.store.status.mqtt
    unfolding start run_page
    run_page-TellsOutage st hs = run-Honest (start st) hs tt
      where
        run-Honest :
            (pg : Screen R) (hs : List (Moment R × Happening R))
            → Honest pg
            → Honest (run_page lower inherited pg hs).0
        run-Honest pg [] h = h
        run-Honest pg ((m, e) ∷ hs) h =
            run-Honest (happen lower inherited pg m e).0 hs (happen-Honest pg m e h)
