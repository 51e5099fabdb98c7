-- ===== src/Page/Start.antt =====
-- Which view is on the page of web/nasa_web/static/js/app.js before and after the first snapshot.
use nasa_cpp.Base.{
  ℕ, ◌≡◌, refl, ap, sym, subst, ◌∙◌, ◌⊎◌, inl, inr, Bool, true, false, Option, none, some, List, [],
  ◌∷◌, ◌++◌, String, lookup, get_elem?, arith, Option-cases, Bool-cases, ◌||◌, not,
}
use nasa_cpp.Base.Number.{Number}
use nasa_cpp.Entity.{Entity, Status}
use nasa_cpp.Store.{
  Store, Message, Event, connection, snapshot, state, on_message, write_state, by_id,
}
use nasa_cpp.Store.Connection.{opened, closed, on_socket}
use nasa_cpp.App
use nasa_cpp.Page.{
  Screen, Moment, Happening, socket, message, hash_change, tick, escape, close_button, open_panel,
  answer, start, listener, emit_all, happen, run_page, refresh_drawer, open_panel_of,
}

-- No snapshot has arrived.
pub record Waits (ready : Bool) (a : App.App) : Type 0 where
  pub store_ready : ready ≡ false
  pub app_ready : a.ready ≡ false
  pub empty : a.current ≡ none

pub record Begun (ready : Bool) (a : App.App) : Type 0 where
  pub store_ready : ready ≡ true
  pub app_ready : a.ready ≡ true
  pub view : App.Page
  pub filled : a.current ≡ some view

-- Before the first snapshot no method of a view has been called; from then on `current` is set: to a
-- view, or to what the name of a property of every object finds in `views`.
abbrev pub InPhase : Bool → App.App → List App.Call → Type 0
InPhase ready a calls = (Waits ready a × (calls ≡ [])) ⊎ Begun ready a

abbrev PhaseFrom : Bool → Bool → App.App → List App.Call → Type 0
PhaseFrom true ready a calls = Begun ready a
PhaseFrom false ready a calls = InPhase ready a calls

module _ (inherited : List ℕ → Bool) where
  route-Begun :
      (ready : Bool) (a : App.App) (fragment : List ℕ)
      → ready ≡ true
      → a.ready ≡ true
      → Begun ready (App.route inherited a fragment).0
  unfolding App.route
  route-Begun ready a fragment set b =
      let name = App.route_name fragment in
      elim (Bool-cases (not a.ready || App.is_here a.current a.current_name name)) [
        | inl same ↦ elim (Option-cases a.current) [
          | inl gone ↦ absurd (ground arith)
          | inr (v, filled) ↦
              rw (same, App.route)
                (record { store_ready = set; app_ready = b; view = v; filled = filled })
        ]
        | inr new ↦
            rw (new, App.route)
              (record {
                store_ready = set;
                app_ready = b;
                view = App.view_named inherited name;
                filled = refl;
              })
      ]

  route-Waits :
      (a : App.App) (fragment : List ℕ) → a.ready ≡ false → App.route inherited a fragment ≡ (a, [])
  unfolding App.route
  route-Waits a fragment e = rw (e, App.route) refl

module _ {R : Type 0} where
  -- A state message changes no flag; it is ignored, or told with the place of an entity.
  pub state_message_flags :
      (lower : String → String) (s : Store R) (id : String) (value : Option R)
      (text : Option String) (ts : R)
      → (on_message lower s (Message.state id value text ts) ≡ (s, []))
        ⊎ ((s' : Store R) × (p : ℕ) × (on_message lower s (Message.state id value text ts)
              ≡ (s', state p ∷ []))
            × (s'.ready ≡ s.ready)
            × (s'.ws_connected ≡ s.ws_connected)
            × (s'.status.mqtt ≡ s.status.mqtt))
  unfolding on_message write_state
  state_message_flags lower s id value text ts = elim (Option-cases (lookup id s.entities)) [
    | inl missing ↦ inl (rw (missing, on_message) refl)
    | inr (p, found) ↦
        let s' = write_state s p value text ts in
        inr (
          record s' { status = record (s'.status) { last_message = some ts } },
          p,
          rw (found, on_message) refl,
          ground arith,
          ground arith,
          ground arith,
        )
  ]

  pub refresh_drawer-kept :
      ⦃num : Number R⦄ (pg : Screen R) (e : Option (Entity R))
      → ((refresh_drawer pg e).link ≡ pg.link)
        × ((refresh_drawer pg e).app ≡ pg.app)
        × ((refresh_drawer pg e).label ≡ pg.label)
        × ((refresh_drawer pg e).drawer ≡ pg.drawer)
  unfolding refresh_drawer
  refresh_drawer-kept pg none = (refl, refl, refl, refl)
  refresh_drawer-kept pg (some e) = ground arith

  -- What app.js hears of an event of the store.
  abbrev pub heard : Moment R → Event → App.AppEvent
  heard m connection = App.connection m.fragment
  heard m snapshot = App.snapshot m.fragment
  heard m (state p) = App.state m.fragment

abbrev pub is_snapshot : App.AppEvent → Bool
is_snapshot (App.snapshot fragment) = true
is_snapshot _ = false

module _ (inherited : List ℕ → Bool) where
  event-Begun :
      (ready : Bool) (a : App.App) (e : App.AppEvent)
      → Begun ready a
      → Begun ready (App.on_event inherited a e).0
  unfolding App.on_event App.on_snapshot
  event-Begun ready a (App.snapshot fragment) b = elim (Option-cases a.current) [
    | inl gone ↦ absurd (let f = b.filled in cc)
    | inr (v, filled) ↦
        rw (filled, App.on_snapshot)
          (record { store_ready = b.store_ready; app_ready = refl; view = v; filled = refl })
  ]
  event-Begun ready a (App.state fragment) b = b
  event-Begun ready a (App.connection fragment) b = b
  event-Begun ready a (App.hash_change fragment) b =
      route-Begun inherited ready a fragment b.store_ready b.app_ready

  -- Before the first snapshot the router does nothing.
  event-Waits :
      (ready : Bool) (a : App.App) (e : App.AppEvent)
      → Waits ready a
      → is_snapshot e ≡ false
      → App.on_event inherited a e ≡ (a, [])
  unfolding App.on_event
  event-Waits ready a (App.snapshot fragment) w n = cc
  event-Waits ready a (App.state fragment) w n = ap (λ c. (a, App.refresh c)) w.empty
  event-Waits ready a (App.connection fragment) w n = refl
  event-Waits ready a (App.hash_change fragment) w n = route-Waits inherited a fragment w.app_ready

  first_snapshot :
      (a : App.App) (fragment : List ℕ)
      → a.current ≡ none
      → Begun true (App.on_event inherited a (App.snapshot fragment)).0
  unfolding App.on_event App.on_snapshot
  first_snapshot a fragment empty =
      subst (λ c. Begun true (App.on_snapshot inherited c (record a { ready = true }) fragment).0)
        (sym empty) (route-Begun inherited true (record a { ready = true }) fragment refl refl)

module _ {R : Type 0} ⦃num : Number R⦄ (lower : String → String) (inherited : List ℕ → Bool) where
  listener_app :
      (pg : Screen R) (m : Moment R) (e : Event)
      → let after = App.on_event inherited pg.app (heard m e) in
        ((listener lower inherited pg m e).0.link ≡ pg.link)
        × ((listener lower inherited pg m e).0.app ≡ after.0)
        × ((listener lower inherited pg m e).1 ≡ after.1)
  unfolding listener App.on_event
  listener_app pg m connection = (refl, refl, refl)
  listener_app pg m snapshot = (refl, refl, refl)
  listener_app pg m (state p) =
      let (l, a, label, drawer) =
        refresh_drawer-kept (record pg { app = pg.app }) (get_elem? pg.link.store.objects p) in
      (l, a, refl)

  -- The state and the calls after a happening; `begun` says that a snapshot came before.
  abbrev Phase : Bool → Screen R × List App.Call → Type 0
  Phase begun (pg, calls) = PhaseFrom begun pg.link.store.ready pg.app calls

  heard-Phase :
      (b : Bool) (pg : Screen R) (m : Moment R) (e : Event)
      → is_snapshot (heard m e) ≡ false
      → Phase b (pg, [])
      → Phase b (emit_all lower inherited pg m (e ∷ []))
  unfolding emit_all
  heard-Phase false pg m e n (inl (w, q)) =
      let (l, a, c) = listener_app pg m e in
      let still = event-Waits inherited pg.link.store.ready pg.app (heard m e) w n in
      inl (rw (l, a, still) w, ap (λ cs. cs ++ []) (c ∙ ap (λ x. x.1) still))
  heard-Phase true pg m e n b =
      let (l, a, c) = listener_app pg m e in
      rw (l, a) (event-Begun inherited pg.link.store.ready pg.app (heard m e) b)
  heard-Phase false pg m e n (inr b) =
      let (l, a, c) = listener_app pg m e in
      inr (rw (l, a) (event-Begun inherited pg.link.store.ready pg.app (heard m e) b))

  state-Phase :
      (b : Bool) (pg : Screen R) (m : Moment R) (id : String) (value : Option R)
      (text : Option String) (ts : R)
      → Phase b (pg, [])
      → Phase b (happen lower inherited pg m (message (Message.state id value text ts)))
  unfolding happen on_message
  state-Phase b pg m id value text ts h =
      elim (state_message_flags lower pg.link.store id value text ts) [
        | inl same ↦ rw (same, happen) h
        | inr (s', p, told, ready, rest, more) ↦
            rw (told, happen)
              (heard-Phase b (record pg { link = record (pg.link) { store = s' } }) m (state p) refl
                (rw ready h))
      ]

  happen-Phase :
      (b : Bool) (pg : Screen R) (m : Moment R) (h : Happening R)
      → Phase b (pg, [])
      → Phase b (happen lower inherited pg m h)
  unfolding happen on_socket on_message emit_all listener open_panel_of
  happen-Phase b pg m (socket opened) h = h
  happen-Phase b pg m (socket closed) h = h
  happen-Phase false pg m (message (Message.snapshot list st)) (inl (w, q)) =
      inr (first_snapshot inherited pg.app m.fragment w.empty)
  happen-Phase false pg m (message (Message.snapshot list st)) (inr b) = inr (
      event-Begun inherited true pg.app (App.snapshot m.fragment)
        (record { store_ready = refl; app_ready = b.app_ready; view = b.view; filled = b.filled }))
  happen-Phase true pg m (message (Message.snapshot list st)) b =
      event-Begun inherited true pg.app (App.snapshot m.fragment)
        (record { store_ready = refl; app_ready = b.app_ready; view = b.view; filled = b.filled })
  happen-Phase b pg m (message (Message.state id value text ts)) h =
      state-Phase b pg m id value text ts h
  happen-Phase b pg m (message (Message.status st)) h = h
  happen-Phase b pg m (message Message.other) h = h
  happen-Phase false pg m hash_change (inl (w, q)) =
      let still =
        event-Waits inherited pg.link.store.ready pg.app (App.hash_change m.fragment) w refl in
      inl (rw still w, ap (λ x. x.1) still)
  happen-Phase false pg m hash_change (inr b) =
      inr (event-Begun inherited pg.link.store.ready pg.app (App.hash_change m.fragment) b)
  happen-Phase true pg m hash_change b =
      event-Begun inherited pg.link.store.ready pg.app (App.hash_change m.fragment) b
  happen-Phase b pg m tick h = h
  happen-Phase b pg m escape h = elim (Bool-cases pg.drawer.hidden) [
    | inl e ↦ rw (e, happen) h
    | inr e ↦ rw (e, happen) h
  ]
  happen-Phase b pg m close_button h = h
  happen-Phase b pg m (open_panel id range) h = elim (Option-cases (by_id pg.link.store id)) [
    | inl e ↦ rw (e, open_panel_of) h
    | inr (e, found) ↦ rw (found, open_panel_of) h
  ]
  happen-Phase b pg m (answer i samples) h = h

  run-Phase :
      (b : Bool) (pg : Screen R) (hs : List (Moment R × Happening R))
      → Phase b (pg, [])
      → Phase b (run_page lower inherited pg hs)
  unfolding run_page
  run-Phase b pg [] h = h
  run-Phase true pg ((m, e) ∷ hs) h =
      run-Phase true (happen lower inherited pg m e).0 hs (happen-Phase true pg m e h)
  run-Phase false pg ((m, e) ∷ hs) h = elim (happen-Phase false pg m e h) [
    | inl (w, quiet) ↦ elim (run-Phase false (happen lower inherited pg m e).0 hs (inl (w, refl))) [
      | inl (w', later) ↦ inl (w', rw (quiet, later) refl)
      | inr b ↦ inr b
    ]
    | inr b ↦ inr (run-Phase true (happen lower inherited pg m e).0 hs b)
  ]

  -- From the start of the page, through anything that happens, the router knows whether the store is
  -- ready. Until the first snapshot no method of a view has been called and there is no current view,
  -- whatever the hash changes to. From the first snapshot on `current` is always set; it is a view, or
  -- what a hash with the name of a property of every object finds in `views`.
  pub view_from_first_snapshot :
      (st : Status R) (hs : List (Moment R × Happening R))
      → let (pg, calls) = run_page lower inherited (start st) hs in
        InPhase pg.link.store.ready pg.app calls
  unfolding start
  view_from_first_snapshot st hs =
      run-Phase false (start st) hs
        (inl (record { store_ready = refl; app_ready = refl; empty = refl }, refl))
