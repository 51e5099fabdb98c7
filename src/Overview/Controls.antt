-- ===== src/Overview/Controls.antt =====
-- `renderControls` of web/nasa_web/static/js/views/overview.js: the card of controls, which is built
-- anew where the set of controls changes, and patched where the markup of a widget does.
pub mod Key
pub mod Patch
pub mod Order
pub mod Repaint
use nasa_cpp.Base.{
  ℕ, ◌+◌, Bool, true, false, not, ◌&&◌, Option, none, some, List, [], ◌∷◌, ◌++◌, map, foldl, String,
  filter, str_eq, or_else, ltb, if◌then◌else◌,
}
use nasa_cpp.Base.Text.{codes}
use nasa_cpp.Format.Escape.{same_text}
use nasa_cpp.Base.Number.{Number}
use nasa_cpp.Entity.{Entity, Status, is_numeric}
use nasa_cpp.Controls.{Panel}
use nasa_cpp.Controls.Widget.{Widget, widget}
use nasa_cpp.Store.Names

-- What stands in `.w`: nothing yet, a markup as it was set, or one in which a click of the user has
-- marked an option.
pub data Face : Type 0 where
  empty : Face
  drawn chosen : String → Face

-- `e.min`, `e.max` and `e.unit` of the hint
pub record Hint (R : Type 0) : Type 0 where
  pub low : R
  pub high : Option R
  pub unit : String

-- An element with `data-row`.
pub record Slot (R : Type 0) : Type 0 where
  pub id : String
  pub name : String
  pub hint : Option (Hint R)
  pub html : Option String  -- `slot._html`
  pub face : Face

-- `#ov-controls`
pub record Box (R : Type 0) : Type 0 where
  pub key : Option (List ℕ)  -- `el.dataset.key`
  pub slots : List (Slot R)

abbrev pub control_order : List String
control_order =
    Names.mode ∷ Names.zone1 ∷ Names.zone1_target ∷ Names.zone2 ∷ Names.zone2_target ∷ Names.dhw
    ∷ Names.dhw_mode ∷ Names.dhw_target ∷ []

-- `CONTROL_ORDER.indexOf(a.name)`, from `i` on, and 99 where it is negative
abbrev pub rank_from : ℕ → List String → String → ℕ
rank_from i [] name = 99
rank_from i (n ∷ names) name = if str_eq n name then i else rank_from (i + 1) names name

abbrev pub rank : String → ℕ
rank name = rank_from 0 control_order name

-- `controls.map((e) => e.id).join(",") + store.status.read_only`
unfoldable pub key_of : List String → Bool → List ℕ
key_of [] read_only = if read_only then codes "true" else codes "false"
key_of (id ∷ []) read_only = codes id ++ (if read_only then codes "true" else codes "false")
key_of (id ∷ next ∷ ids) read_only = codes id ++ b',' ∷ key_of (next ∷ ids) read_only

-- `el.dataset.key === key`
abbrev pub is_key : Option (List ℕ) → List ℕ → Bool
is_key none key = false
is_key (some k) key = same_text k key

-- `slot._html === html`
abbrev pub is_html : Option String → String → Bool
is_html none html = false
is_html (some h) html = str_eq h html

module _ {R : Type 0} where
  -- `sorts_after a b` stands for `a.localeCompare(b) > 0`.
  module _ (sorts_after : String → String → Bool) where
    -- What the comparison of `controls.sort` finds in order.
    abbrev pub in_order : Entity R → Entity R → Bool
    in_order a b =
        if ltb (rank a.name) (rank b.name)
        then true
        else if ltb (rank b.name) (rank a.name)
        then false
        else not (sorts_after a.name b.name)

    abbrev pub insert_control : Entity R → List (Entity R) → List (Entity R)
    insert_control e [] = e ∷ []
    insert_control e (f ∷ fs) = if in_order e f then e ∷ f ∷ fs else f ∷ insert_control e fs

    abbrev pub sort_controls : List (Entity R) → List (Entity R)
    sort_controls [] = []
    sort_controls (e ∷ es) = insert_control e (sort_controls es)

    -- `controls`, of the values of `store.entities`
    unfoldable pub controls_of : List (Entity R) → List (Entity R)
    controls_of all = sort_controls (filter (λ (e : Entity R). str_eq e.category "control") all)

  abbrev pub hint_from : Entity R → Option R → Option (Hint R)
  hint_from e none = none
  hint_from e (some lo) = some (record { low = lo; high = e.max; unit = or_else e.unit "" })

  -- The row of an entity, as the full build leaves it.
  abbrev pub new_slot : Entity R → Slot R
  new_slot e = record {
    id = e.id;
    name = e.name;
    hint = if is_numeric e.kind then hint_from e e.min else none;
    html = none;
    face = empty;
  }

  -- `if (slot && slot._html !== html)`, and what follows
  abbrev pub patch_slot : Slot R → String → Slot R
  patch_slot s html =
      if is_html s.html html then s else record s { html = some html; face = drawn html }

  -- The row that the selector finds is patched.
  abbrev pub patch : List (Slot R) → String → String → List (Slot R)
  patch [] id html = []
  patch (s ∷ ss) id html = if str_eq s.id id then patch_slot s html ∷ ss else s ∷ patch ss id html

  -- A click on an option of a segmented control marks it: `b.classList.toggle("active", b === btn)`.
  abbrev pub choose_slot : String → String → List (Slot R) → List (Slot R)
  choose_slot id option [] = []
  choose_slot id option (s ∷ ss) =
      if str_eq s.id id
      then record s { face = chosen option } ∷ ss
      else s ∷ choose_slot id option ss

  unfoldable pub choose : Box R → String → String → Box R
  choose b id option = record b { slots = choose_slot id option b.slots }

  module _ (html : Entity R → String) where
    -- the loop over the controls
    unfoldable pub patch_all : List (Slot R) → List (Entity R) → List (Slot R)
    patch_all ss [] = ss
    patch_all ss (e ∷ es) = patch_all (patch ss e.id (html e)) es

    -- `renderControls`, from the sorted controls on
    unfoldable pub render : Box R → List (Entity R) → Bool → Box R
    unfolding patch_all key_of
    render b [] read_only = record { key = some []; slots = [] }
    render b (e ∷ es) read_only =
        let key = key_of (map (λ (e : Entity R). e.id) (e ∷ es)) read_only in
        if is_key b.key key
        then record b { slots = patch_all b.slots (e ∷ es) }
        else record { key = some key; slots = patch_all (map new_slot (e ∷ es)) (e ∷ es) }

-- `markup` stands for the template of `widget`, `locale` for the printing of numbers.
module _ {R : Type 0} ⦃num : Number R⦄ where
  module _ (locale : R → ℕ → String) (markup : Entity R → Widget → String) where
    unfoldable pub html_of : Status R → Panel R → Entity R → String
    html_of st c e = markup e (widget locale st c (some e))

    unfoldable pub render_controls :
        (String → String → Bool) → Status R → Panel R → Box R → List (Entity R) → Box R
    unfolding render html_of controls_of
    render_controls sorts_after st c b all =
        render (html_of st c) b (controls_of sorts_after all) st.read_only

    -- `if (!(await send(e, btn.dataset.opt))) rerender(e)`, where the card is rendered again
    unfoldable pub settle_choice :
        Bool → (String → String → Bool) → Status R → Panel R → Box R → List (Entity R) → Box R
    unfolding render_controls
    settle_choice ok sorts_after st c b all =
        if ok then b else render_controls sorts_after st c b all
