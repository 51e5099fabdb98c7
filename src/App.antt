-- ===== src/App.antt =====
-- web/nasa_web/static/js/app.js: the router, and the badge of the connection.
pub mod Routes
pub mod Badge
use nasa_cpp.Base.{
  ℕ, ◌≡◌, refl, Bool, true, false, not, ◌||◌, Option, none, some, List, [], ◌∷◌, ◌++◌, or_else,
  if◌then◌else◌, ◌==◌,
}
use nasa_cpp.Base.Text.{codes}
use nasa_cpp.Format.Escape.{same_text}

pub data View : Type 0 where
  overview history energy settings entities : View

-- What `views[name]` can be: a view, or something that every JavaScript object has under that name,
-- such as `constructor`, which has none of a view's methods.
pub data Page : Type 0 where
  page : View → Page
  foreign : Page

pub data Call : Type 0 where
  unmount mount update : View → Call

-- `current`, `currentName` and `store.ready`.
pub record App : Type 0 where
  pub current : Option Page
  pub current_name : Option (List ℕ)
  pub ready : Bool

-- `….split("?")[0]`
unfoldable pub before_query : List ℕ → List ℕ
before_query [] = []
before_query (c ∷ s) = let rest = c ∷ before_query s in if c == b'?' then [] else rest

-- `location.hash.slice(1) || "overview"`, of the text behind the `#`
abbrev pub or_overview : List ℕ → List ℕ
or_overview [] = codes "overview"
or_overview (c ∷ s) = c ∷ s

unfoldable pub route_name : List ℕ → List ℕ
unfolding before_query
route_name fragment = before_query (or_overview fragment)

-- `current && currentName === name`
abbrev pub is_here : Option Page → Option (List ℕ) → List ℕ → Bool
is_here (some p) (some here) name = same_text here name
is_here _ _ name = false

-- `current?.unmount?.()`; a view that has no such method does nothing
abbrev pub leave : Option Page → List Call
leave none = []
leave (some foreign) = []
leave (some (page v)) = unmount v ∷ []

-- `view.mount(…)`, which throws where there is no such method
abbrev pub enter : Page → List Call
enter foreign = []
enter (page v) = mount v ∷ []

-- `current?.update?.(ev)`
abbrev pub refresh : Option Page → List Call
refresh none = []
refresh (some foreign) = []
refresh (some (page v)) = update v ∷ []

-- What reaches app.js: an event of the store, or a change of the hash. Each comes with the
-- fragment that `location.hash` then holds.
pub data AppEvent : Type 0 where
  snapshot state connection hash_change : List ℕ → AppEvent

-- `inherited` says which names every JavaScript object has.
module _ (inherited : List ℕ → Bool) where
  -- `views[name] || overview`
  unfoldable pub view_named : List ℕ → Page
  view_named name =
      if same_text name (codes "history")
      then page history
      else if same_text name (codes "energy")
      then page energy
      else if same_text name (codes "settings")
      then page settings
      else if same_text name (codes "entities")
      then page entities
      else if same_text name (codes "overview")
      then page overview
      else if inherited name
      then foreign
      else page overview

  unfoldable pub route : App → List ℕ → App × List Call
  unfolding route_name view_named
  route a fragment =
      let name = route_name fragment in
      let view = view_named name in
      if not a.ready || is_here a.current a.current_name name then (a, []) else (
        record { current = some view; current_name = some name; ready = a.ready },
        leave a.current ++ enter view,
      )

  -- `if (!current) route(); else current.update?.(ev)`
  unfoldable pub on_snapshot : Option Page → App → List ℕ → App × List Call
  unfolding route
  on_snapshot none a fragment = route a fragment
  on_snapshot (some p) a fragment = (a, refresh (some p))

  unfoldable pub on_event : App → AppEvent → App × List Call
  unfolding route on_snapshot
  on_event a (snapshot fragment) = on_snapshot a.current (record a { ready = true }) fragment
  on_event a (state fragment) = (a, refresh a.current)
  on_event a (connection fragment) = (a, [])
  on_event a (hash_change fragment) = route a fragment

  unfoldable pub run_app : App → List AppEvent → App × List Call
  run_app a [] = (a, [])
  run_app a (e ∷ es) =
      let (a', calls) = on_event a e in let (a'', later) = run_app a' es in (a'', calls ++ later)
