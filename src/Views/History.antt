-- ===== src/Views/History.antt =====
-- web/nasa_web/static/js/views/history.js: the time range that the page shows.
pub mod Past
pub mod Load
pub mod Reload
use nasa_cpp.Base.{
  ℕ, ◌≡◌, Bool, true, false, Option, none, some, List, [], ◌∷◌, or_else, if◌then◌else◌,
}
use nasa_cpp.Base.Number.{Number, ◌⊕◌, ◌⊖◌, max_num}

-- `span`, and `end`, which is null while the page follows the present.
pub record Range (R : Type 0) : Type 0 where
  pub span : R
  pub finish : Option R

pub data Move (R : Type 0) : Type 0 where
  pick : R → Move R  -- a button of the range bar
  earlier later : Move R
  zoom : R → R → Move R

module _ {R : Type 0} ⦃num : Number R⦄ where
  -- the listener of `h-next`
  abbrev pub after_later : R → R → Option R
  after_later now finish = if num.le (now ⊖ num.of_nat 60) finish then none else some finish

  -- `zoom(a, b)`
  abbrev pub after_zoom : R → R → Range R
  after_zoom a b = record { span = max_num (num.of_nat 300) (b ⊖ a); finish = some b }

  -- The listeners of the range bar and of the charts; `now` is `Date.now() / 1000`.
  unfoldable pub move : R → Range R → Move R → Range R
  move now r (pick s) = record { span = s; finish = none }
  move now r earlier = record r { finish = some (or_else r.finish now ⊖ r.span) }
  move now r later = record r { finish = after_later now (or_else r.finish now ⊕ r.span) }
  move now r (zoom a b) = after_zoom a b

  -- `range()`
  unfoldable pub range : R → Range R → R × R
  range now r = let e = or_else r.finish now in (e ⊖ r.span, e)

  -- The 30 s timer reloads only while the page follows the present.
  abbrev pub reloads : Range R → Bool
  reloads r = elim r.finish [ none ↦ true | some e ↦ false ]
