-- ===== src/Base/Picking.antt =====
-- The elements of a list that meet a condition, as a relation.
use mathlib.Core.Path.{◌≡◌}
use mathlib.Core.Logic.{inl, inr}
use mathlib.Core.Bool.{Bool, true, false}
use mathlib.Core.List.{List, [], ◌∷◌}
use nasa_cpp.Base.Tests.{Bool-cases}
use nasa_cpp.Base.Lists.{filter}

-- `Picks P xs ys`: `ys` are the elements of `xs` that meet `P`, in their order, and no others.
pub data Picks {ℓ κ} {A : Type ℓ} (P : A → Type κ) : List A → List A → Type (ℓ ⊔ κ) where
  done : Picks P [] []
  take : {x : A} {xs ys : List A} → P x → Picks P xs ys → Picks P (x ∷ xs) (x ∷ ys)
  skip : {x : A} {xs ys : List A} → ¬ P x → Picks P xs ys → Picks P (x ∷ xs) ys

pub filter-Picks {ℓ κ} :
    {A : Type ℓ} (P : A → Type κ) (p : A → Bool) (xs : List A)
    → ((x : A) → p x ≡ true → P x)
    → ((x : A) → p x ≡ false → ¬ P x)
    → Picks P xs (filter p xs)
filter-Picks P p [] fits fails = Picks.done
filter-Picks P p (x ∷ xs) fits fails = elim (Bool-cases (p x)) [
  | inl kept ↦ rw kept (Picks.take (fits x kept) (filter-Picks P p xs fits fails))
  | inr left ↦ rw left (Picks.skip (fails x left) (filter-Picks P p xs fits fails))
]
