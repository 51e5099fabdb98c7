-- ===== src/Base/Sorting.antt =====
-- `xs.sort(compare)`, which is stable: `first x y` says that `compare(x, y)` is not positive.
use mathlib.Core.Path.{◌≡◌, refl}
use mathlib.Core.Logic.{inl, inr}
use mathlib.Core.Bool.{Bool, true, false}
use mathlib.Core.List.{List, [], ◌∷◌, Perm}
use mathlib.Core.List.Perm
use native.Mathlib.Omega.{arith}
use nasa_cpp.Base.Tests.{if◌then◌else◌, Bool-cases}
use nasa_cpp.Base.Lists.{All, All-map, length}

module _ {ℓ} {A : Type ℓ} (first : A → A → Bool) where
  abbrev pub insert_by : A → List A → List A
  insert_by x [] = x ∷ []
  insert_by x (y ∷ ys) = let rest = insert_by x ys in if first x y then x ∷ y ∷ ys else y ∷ rest

  abbrev pub sort_by : List A → List A
  sort_by [] = []
  sort_by (x ∷ xs) = insert_by x (sort_by xs)

  -- No element has to come before one to its left.
  abbrev pub IsSortedBy : List A → Type ℓ
  IsSortedBy [] = Unit
  IsSortedBy (x ∷ xs) = All (λ y. first x y ≡ true) xs × IsSortedBy xs

  insert_by-All {κ} :
      (P : A → Type κ) (x : A) (ys : List A) → P x → All P ys → All P (insert_by x ys)
  insert_by-All P x [] p h = (p, tt)
  insert_by-All P x (y ∷ ys) p (q, h) = elim (Bool-cases (first x y)) [
    | inl before ↦ rw before (p, (q, h))
    | inr after ↦ rw after (q, insert_by-All P x ys p h)
  ]

  pub sort_by-All {κ} : (P : A → Type κ) (xs : List A) → All P xs → All P (sort_by xs)
  sort_by-All P [] h = tt
  sort_by-All P (x ∷ xs) (p, h) = insert_by-All P x (sort_by xs) p (sort_by-All P xs h)

  All-insert_by {κ} :
      (P : A → Type κ) (x : A) (ys : List A) → All P (insert_by x ys) → P x × All P ys
  All-insert_by P x [] h = h
  All-insert_by P x (y ∷ ys) h = elim (Bool-cases (first x y)) [
    | inl before ↦ rw before at h
    | inr after ↦
        let (q, rest) : P y × All P (insert_by x ys) = rw after at h in
        let (p, ps) = All-insert_by P x ys rest in (p, (q, ps))
  ]

  pub All-sort_by {κ} : (P : A → Type κ) (xs : List A) → All P (sort_by xs) → All P xs
  All-sort_by P [] h = tt
  All-sort_by P (x ∷ xs) h =
      let (p, ps) = All-insert_by P x (sort_by xs) h in (p, All-sort_by P xs ps)

  insert_by-Perm : (x : A) (ys : List A) → Perm (insert_by x ys) (x ∷ ys)
  insert_by-Perm x [] = Perm.refl (x ∷ [])
  insert_by-Perm x (y ∷ ys) = elim (Bool-cases (first x y)) [
    | inl before ↦ rw before (Perm.refl (x ∷ y ∷ ys))
    | inr after ↦ rw after (Perm.trans (Perm.cons y (insert_by-Perm x ys)) (Perm.swap x y ys))
  ]

  -- Sorting loses and adds nothing.
  pub sort_by-Perm : (xs : List A) → Perm (sort_by xs) xs
  sort_by-Perm [] = Perm.refl []
  sort_by-Perm (x ∷ xs) = Perm.trans (insert_by-Perm x (sort_by xs)) (Perm.cons x (sort_by-Perm xs))

  length-insert_by : (x : A) (ys : List A) → length (insert_by x ys) ≡ length (x ∷ ys)
  length-insert_by x [] = refl
  length-insert_by x (y ∷ ys) = ground (arith, length-insert_by x ys)

  pub length-sort_by : (xs : List A) → length (sort_by xs) ≡ length xs
  length-sort_by [] = refl
  length-sort_by (x ∷ xs) = ground (arith, length-insert_by x (sort_by xs), length-sort_by xs)

  module _ (total : (x y : A) → first x y ≡ false → first y x ≡ true)
      (trans : (x y z : A) → first x y ≡ true → first y z ≡ true → first x z ≡ true) where
    insert_by-IsSortedBy : (x : A) (ys : List A) → IsSortedBy ys → IsSortedBy (insert_by x ys)
    insert_by-IsSortedBy x [] h = (tt, tt)
    insert_by-IsSortedBy x (y ∷ ys) (low, h) = elim (Bool-cases (first x y)) [
      | inl before ↦ rw before (
        (
          before,
          All-map (λ z. first y z ≡ true) (λ z. first x z ≡ true) (λ z k. trans x y z before k) ys
              low,
        ),
        (low, h),
      )
      | inr after ↦ rw after (
        insert_by-All (λ z. first y z ≡ true) x ys (total x y after) low,
        insert_by-IsSortedBy x ys h,
      )
    ]

    pub sort_by-IsSortedBy : (xs : List A) → IsSortedBy (sort_by xs)
    sort_by-IsSortedBy [] = tt
    sort_by-IsSortedBy (x ∷ xs) = insert_by-IsSortedBy x (sort_by xs) (sort_by-IsSortedBy xs)

-- Each element stands in a relation to all that come after it.
abbrev pub Ordered {ℓ κ} : {A : Type ℓ} (Before : A → A → Type κ) → List A → Type κ
Ordered Before [] = Unit
Ordered Before (x ∷ xs) = All (Before x) xs × Ordered Before xs

pub IsSortedBy-Ordered {ℓ κ} :
    {A : Type ℓ} (first : A → A → Bool) (Before : A → A → Type κ)
    → ((x y : A) → first x y ≡ true → Before x y)
    → (xs : List A) → IsSortedBy first xs
    → Ordered Before xs
IsSortedBy-Ordered first Before f [] h = tt
IsSortedBy-Ordered first Before f (x ∷ xs) (low, h) = (
  All-map (λ y. first x y ≡ true) (Before x) (f x) xs low,
  IsSortedBy-Ordered first Before f xs h,
)
