-- ===== src/Page/Panel.antt =====
-- The value at the top of the side panel of web/nasa_web/static/js/drawer.js, against the store.
use nasa_cpp.Base.{
  ℕ, ◌≡◌, ◌≢◌, refl, sym, ◌∙◌, inl, inr, Bool, true, false, Option, none, some, List, [], ◌∷◌,
  String, arith, All, get_elem?, lookup, lookup-entry, eq_iff, str_eq, Option-cases, Bool-cases,
  if◌then◌else◌,
}
use nasa_cpp.Base.Number.{Number}
use nasa_cpp.Entity.{Entity, Status}
use nasa_cpp.Store.{Store, Message, state, on_message, by_id, write_state}
use nasa_cpp.Store.Coherence.{IsCoherent, IdOk, on_message-IsCoherent}
use nasa_cpp.Store.Lookup.{after_state, last_with, snapshot_lookup}
use nasa_cpp.Store.Refinement.{by_id-state}
use nasa_cpp.Store.Connection.{opened, closed, on_socket}
use nasa_cpp.App
use nasa_cpp.Page.Start.{state_message_flags, refresh_drawer-kept}
use nasa_cpp.Drawer.{Drawer, close, open_entity, on_answer, on_history, is_current, refreshes}
use nasa_cpp.Page.{
  Screen, Moment, Happening, socket, message, hash_change, tick, escape, close_button, open_panel,
  answer, listener, emit_all, happen, run_page, refresh_drawer, open_panel_of,
}

-- A panel that is open shows what the store holds under its id.
abbrev pub PanelOk :
    {R : Type 0} → Option String → Option (Entity R) → (String → Option (Entity R)) → Type 0
PanelOk none shown held = Unit
PanelOk (some id) shown held = shown ≡ held id

abbrev pub is_new_list : {R : Type 0} → Happening R → Bool
is_new_list (message (Message.snapshot list st)) = true
is_new_list _ = false

-- No snapshot is among what happens.
abbrev pub NoSnapshot : {R : Type 0} → List (Moment R × Happening R) → Type 0
NoSnapshot hs = All (λ (h : Moment _ × Happening _). is_new_list h.1 ≡ false) hs

module _ {R : Type 0} ⦃num : Number R⦄ (lower : String → String) where
  state_told :
      (s s' : Store R) (id : String) (value : Option R) (text : Option String) (ts : R) (p : ℕ)
      → on_message lower s (Message.state id value text ts) ≡ (s', state p ∷ [])
      → lookup id s'.entities ≡ some p
  unfolding on_message write_state
  state_told s s' id value text ts p h = elim (Option-cases (lookup id s.entities)) [
    | inl missing ↦ absurd (ground arith)
    | inr (q, found) ↦ ground arith
  ]

  by_id-other :
      (s : Store R) (id : String) (value : Option R) (text : Option String) (ts : R) (k : String)
      → IsCoherent lower s []
      → k ≢ id
      → by_id (on_message lower s (Message.state id value text ts)).0 k ≡ by_id s k
  unfolding by_id
  by_id-other s id value text ts k c other = by_id-state lower s id value text ts k c ∙ unchanged
    where
      unchanged : after_state lower id value text ts (by_id s k) ≡ by_id s k
      unchanged = elim (Option-cases (lookup k s.entities)) [
        | inl missing ↦ rw (by_id, missing) refl
        | inr (q, found) ↦
            let (o, at, key) = lookup-entry (IdOk s) k s.entities c.ids found in
            rw (by_id, found) (ground (arith, eq_iff o.id id))
      ]

  -- The value is written anew exactly if the message is for the entity of the panel.
  state-PanelOk :
      (current : Option String) (shown : Option (Entity R)) (s s' : Store R) (id : String)
      (value : Option R) (text : Option String) (ts : R) (p : ℕ) (e : Entity R)
      → IsCoherent lower s []
      → on_message lower s (Message.state id value text ts) ≡ (s', state p ∷ [])
      → get_elem? s'.objects p ≡ some e
      → e.id ≡ id
      → PanelOk current shown (by_id s)
      → PanelOk current (if is_current current e.id then some e else shown) (by_id s')
  unfolding by_id
  state-PanelOk none shown s s' id value text ts p e c told at same h = tt
  state-PanelOk (some k) shown s s' id value text ts p e c told at same h =
      let there = state_told s s' id value text ts p told in
      elim (Bool-cases (str_eq k e.id)) [
        | inl eq ↦ ground (arith, eq_iff k e.id)
        | inr ne ↦
            let other : k ≢ id = ground (arith, eq_iff k e.id) in
            let kept = by_id-other s id value text ts k c other in ground (arith)
      ]

  abbrev Current : Screen R → Type 0
  Current pg =
      IsCoherent lower pg.link.store []
      × PanelOk pg.drawer.current_id pg.now_shown (by_id pg.link.store)

  answer-current_id :
      (d : Drawer R) (i : ℕ) (samples : Bool) → (on_answer d i samples).current_id ≡ d.current_id
  unfolding on_answer on_history
  answer-current_id d i samples = ground arith

  module _ (inherited : List ℕ → Bool) where
    tell-PanelOk :
        (pg : Screen R) (m : Moment R) (p : ℕ) (e : Entity R)
        → get_elem? pg.link.store.objects p ≡ some e
        → PanelOk pg.drawer.current_id
            (if is_current pg.drawer.current_id e.id then some e else pg.now_shown)
            (by_id pg.link.store)
        → PanelOk
            (listener lower inherited pg m (state p)).0.drawer.current_id
            (listener lower inherited pg m (state p)).0.now_shown
            (by_id (listener lower inherited pg m (state p)).0.link.store)
    unfolding listener refreshes
    tell-PanelOk pg m p e at h = elim (Bool-cases (is_current pg.drawer.current_id e.id)) [
      | inl mine ↦ rw (at, refresh_drawer, mine) (rw mine at h)
      | inr other ↦ rw (at, refresh_drawer, other) (rw other at h)
    ]

    listener_link :
        (pg : Screen R) (m : Moment R) (p : ℕ)
        → (listener lower inherited pg m (state p)).0.link ≡ pg.link
    unfolding listener
    listener_link pg m p =
        (refresh_drawer-kept
          (record pg { app = (App.on_event inherited pg.app (App.state m.fragment)).0 })
          (get_elem? pg.link.store.objects p)).0

    state-Current :
        (pg : Screen R) (m : Moment R) (id : String) (value : Option R) (text : Option String)
        (ts : R) (s' : Store R) (p : ℕ)
        → on_message lower pg.link.store (Message.state id value text ts) ≡ (s', state p ∷ [])
        → Current pg
        → Current (happen lower inherited pg m (message (Message.state id value text ts))).0
    unfolding happen emit_all
    state-Current pg m id value text ts s' p told (c, h) =
        let s = pg.link.store in
        let c' : IsCoherent lower s' [] =
          rw told at (on_message-IsCoherent lower s (Message.state id value text ts) tt c) in
        let (e, at, same) =
          lookup-entry (IdOk s') id s'.entities c'.ids (state_told s s' id value text ts p told) in
        rw (told, happen)
          (
            (rw (listener_link (record pg { link = record (pg.link) { store = s' } }) m p) c'),
            tell-PanelOk (record pg { link = record (pg.link) { store = s' } }) m p e at
                (state-PanelOk pg.drawer.current_id pg.now_shown s s' id value text ts p e c told at
                  same h),
          )

    happen-Current :
        (pg : Screen R) (m : Moment R) (h : Happening R)
        → is_new_list h ≡ false
        → Current pg
        → Current (happen lower inherited pg m h).0
    unfolding happen emit_all listener on_socket on_message open_panel_of by_id close open_entity
    happen-Current pg m (socket opened) q h = (record { ids = h.0.ids; names = h.0.names }, h.1)
    happen-Current pg m (socket closed) q h = (record { ids = h.0.ids; names = h.0.names }, h.1)
    happen-Current pg m (message (Message.snapshot list st)) q h = cc
    happen-Current pg m (message (Message.state id value text ts)) q h =
        elim (state_message_flags lower pg.link.store id value text ts) [
          | inl same ↦ rw (same, happen) h
          | inr (s', p, told, ready, up, mqtt) ↦ state-Current pg m id value text ts s' p told h
        ]
    happen-Current pg m (message (Message.status st)) q h =
        (record { ids = h.0.ids; names = h.0.names }, h.1)
    happen-Current pg m (message Message.other) q h = h
    happen-Current pg m hash_change q h = (h.0, tt)
    happen-Current pg m tick q h = h
    happen-Current pg m escape q h = elim (Bool-cases pg.drawer.hidden) [
      | inl e ↦ rw (e, happen) h
      | inr e ↦ rw (e, happen) (h.0, tt)
    ]
    happen-Current pg m close_button q h = (h.0, tt)
    happen-Current pg m (open_panel id range) q h = elim (Option-cases (by_id pg.link.store id)) [
      | inl e ↦ rw (e, open_panel_of) h
      | inr (e, found) ↦ rw (found, open_panel_of) (h.0, sym found)
    ]
    happen-Current pg m (answer i samples) q h =
        (h.0, rw (answer-current_id pg.drawer i samples) (h.1))

    run-Current :
        (pg : Screen R) (hs : List (Moment R × Happening R))
        → NoSnapshot hs
        → Current pg
        → Current (run_page lower inherited pg hs).0
    unfolding run_page
    run-Current pg [] q h = h
    run-Current pg ((m, e) ∷ hs) q h =
        run-Current (happen lower inherited pg m e).0 hs q.1 (happen-Current pg m e q.0 h)

    -- While no snapshot arrives, a panel that is open goes on showing the entity that the store holds
    -- under its id, through any messages, clicks, answers and changes of the connection.
    pub open_panel_current :
        (pg : Screen R) (hs : List (Moment R × Happening R))
        → NoSnapshot hs
        → IsCoherent lower pg.link.store []
        → PanelOk pg.drawer.current_id pg.now_shown (by_id pg.link.store)
        → let pg' = (run_page lower inherited pg hs).0 in
          PanelOk pg'.drawer.current_id pg'.now_shown (by_id pg'.link.store)
    open_panel_current pg hs q c h = (run-Current pg hs q (c, h)).1

    -- A snapshot is not told to the panel: if the panel is open for an entity and the snapshot brings
    -- another value of it, the panel goes on showing the old one.
    pub snapshot_leaves_panel :
        (pg : Screen R) (m : Moment R) (list : List (Entity R)) (st : Status R) (id : String)
        (old new : Entity R)
        → pg.drawer.current_id ≡ some id
        → pg.now_shown ≡ some old
        → last_with (λ e. e.id) id list ≡ some new
        → old.value ≢ new.value
        → let pg' = (happen lower inherited pg m (message (Message.snapshot list st))).0 in
          (pg'.drawer.current_id ≡ some id)
          × (pg'.now_shown ≡ some old)
          × (by_id pg'.link.store id ≡ some new)
          × (pg'.now_shown ≢ by_id pg'.link.store id)
    unfolding happen emit_all listener on_message by_id
    snapshot_leaves_panel pg m list st id old new open_for shown fresh differ =
        let held = (snapshot_lookup lower pg.link.store list st id id).0 ∙ fresh in
        (
          open_for,
          shown,
          held,
          λ e. differ (let e' : some old ≡ some new = sym shown ∙ e ∙ held in cc),
        )
