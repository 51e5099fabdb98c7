-- ===== src/App/Routes.antt =====
-- Which view is on the page (web/nasa_web/static/js/app.js).
use nasa_cpp.Base.{
  ℕ, ◌≡◌, refl, inl, inr, Bool, true, false, not, ◌||◌, Option, none, some, List, [], ◌∷◌, ◌++◌,
  Bool-cases, subst, ◌∙◌,
}
use mathlib.Core.List.{append-nil}
use nasa_cpp.App.{
  View, Page, page, foreign, Call, mount, unmount, update, App, AppEvent, snapshot, state,
  connection, hash_change, route, route_name, view_named, is_here, on_event, on_snapshot, run_app,
  leave, enter, refresh,
}

-- `Shows v calls w`: with `v` on the page, the calls leave `w` on it. A view is mounted where none is,
-- and only the view on the page is unmounted or updated.
pub data Shows : Option View → List Call → Option View → Type 0 where
  done : {v : Option View} → Shows v [] v
  mounted :
      {v : View} {w : Option View} {calls : List Call}
      → Shows (some v) calls w
      → Shows none (mount v ∷ calls) w
  unmounted :
      {v : View} {w : Option View} {calls : List Call}
      → Shows none calls w
      → Shows (some v) (unmount v ∷ calls) w
  updated :
      {v : View} {w : Option View} {calls : List Call}
      → Shows (some v) calls w
      → Shows (some v) (update v ∷ calls) w

Shows-append :
    {u v w : Option View} {xs ys : List Call} → Shows u xs v → Shows v ys w → Shows u (xs ++ ys) w
Shows-append done k = k
Shows-append (mounted h) k = mounted (Shows-append h k)
Shows-append (unmounted h) k = unmounted (Shows-append h k)
Shows-append (updated h) k = updated (Shows-append h k)

-- The view on the page.
abbrev pub shown : Option Page → Option View
shown none = none
shown (some foreign) = none
shown (some (page v)) = some v

leave-Shows : (c : Option Page) (p : Page) → Shows (shown c) (leave c ++ enter p) (shown (some p))
leave-Shows none foreign = done
leave-Shows none (page v) = mounted done
leave-Shows (some foreign) foreign = done
leave-Shows (some foreign) (page v) = mounted done
leave-Shows (some (page u)) foreign = unmounted done
leave-Shows (some (page u)) (page v) = unmounted (mounted done)

refresh-Shows : (c : Option Page) → Shows (shown c) (refresh c) (shown c)
refresh-Shows none = done
refresh-Shows (some foreign) = done
refresh-Shows (some (page v)) = updated done

-- Events other than a change of the hash.
abbrev pub NoHashChange : List AppEvent → Type 0
NoHashChange [] = Unit
NoHashChange (hash_change fragment ∷ es) = ⊥
NoHashChange (e ∷ es) = NoHashChange es

module _ (inherited : List ℕ → Bool) where
  route-Shows :
      (a : App) (fragment : List ℕ)
      → Shows
          (shown a.current)
          (route inherited a fragment).1
          (shown (route inherited a fragment).0.current)
  unfolding route
  route-Shows a fragment =
      elim (Bool-cases (not a.ready || is_here a.current a.current_name (route_name fragment))) [
        | inl same ↦ rw (same, route) done
        | inr new ↦
            rw (new, route) (leave-Shows a.current (view_named inherited (route_name fragment)))
      ]

  on_snapshot-Shows :
      (c : Option Page) (a : App) (fragment : List ℕ)
      → c ≡ a.current
      → Shows
          (shown a.current)
          (on_snapshot inherited c a fragment).1
          (shown (on_snapshot inherited c a fragment).0.current)
  unfolding on_snapshot
  on_snapshot-Shows none a fragment e = route-Shows a fragment
  on_snapshot-Shows (some p) a fragment e =
      subst (λ c. Shows (shown c) (refresh (some p)) (shown c)) e (refresh-Shows (some p))

  on_event-Shows :
      (a : App) (e : AppEvent)
      → Shows
          (shown a.current)
          (on_event inherited a e).1
          (shown (on_event inherited a e).0.current)
  unfolding on_event
  on_event-Shows a (snapshot fragment) =
      on_snapshot-Shows a.current (record a { ready = true }) fragment refl
  on_event-Shows a (state fragment) = refresh-Shows a.current
  on_event-Shows a (connection fragment) = done
  on_event-Shows a (hash_change fragment) = route-Shows a fragment

  -- Through any series of events of the store and the address bar there is at most one view on the
  -- page: each is unmounted before the next is mounted, only the view on the page is updated, and
  -- the view on the page is `current`, where that is a view.
  pub run_app-Shows :
      (a : App) (es : List AppEvent)
      → Shows
          (shown a.current)
          (run_app inherited a es).1
          (shown (run_app inherited a es).0.current)
  unfolding run_app
  run_app-Shows a [] = done
  run_app-Shows a (e ∷ es) =
      Shows-append (on_event-Shows a e) (run_app-Shows (on_event inherited a e).0 es)

  stays_foreign :
      (name : Option (List ℕ)) (ready : Bool) (es : List AppEvent)
      → NoHashChange es
      → let a : App = record { current = some foreign; current_name = name; ready = ready } in
        ((run_app inherited a es).1 ≡ []) × ((run_app inherited a es).0.current ≡ some foreign)
  unfolding run_app on_event on_snapshot
  stays_foreign name ready [] h = (refl, refl)
  stays_foreign name ready (snapshot fragment ∷ es) h = stays_foreign name true es h
  stays_foreign name ready (state fragment ∷ es) h = stays_foreign name ready es h
  stays_foreign name ready (connection fragment ∷ es) h = stays_foreign name ready es h
  stays_foreign name ready (hash_change fragment ∷ es) h = absurd h

  -- A fragment whose name is no view's, but one that every object has, takes the view off the page and
  -- mounts none; the page then stays blank, whatever the store reports, until the hash changes again.
  pub inherited_name_blanks :
      (a : App) (fragment : List ℕ) (es : List AppEvent)
      → a.ready ≡ true
      → is_here a.current a.current_name (route_name fragment) ≡ false
      → view_named inherited (route_name fragment) ≡ foreign
      → NoHashChange es
      → ((run_app inherited a (hash_change fragment ∷ es)).1 ≡ leave a.current)
        × (shown (run_app inherited a (hash_change fragment ∷ es)).0.current ≡ none)
  unfolding run_app on_event
  inherited_name_blanks a fragment es ready new named h =
      let name = route_name fragment in
      let a' : App = record { current = some foreign; current_name = some name; ready = a.ready } in
      let routed : route inherited a fragment ≡ (a', leave a.current ++ []) =
        rw (route, ready, new, named) refl in
      let (quiet, blank) = stays_foreign (some name) a.ready es h in
      rw (routed, quiet, blank)
        (append-nil (leave a.current ++ []) ∙ append-nil (leave a.current), refl)
