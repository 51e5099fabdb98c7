-- ===== src/Base/Grouping.antt =====
-- Grouping by a computed key: `if (!groups.has(k)) groups.set(k, []); groups.get(k).push(x)`.
use mathlib.Core.Path.{◌≡◌, refl, ap, ◌∙◌}
use mathlib.Core.Logic.{inl, inr}
use mathlib.Core.Option.{Option, some}
use mathlib.Core.List.{List, [], ◌∷◌, ◌++◌, append_assoc}
use Prim.Native.String.{String}
use native.Mathlib.Omega.{arith}
use text.Mathlib.Text.{◌==◌ as str_eq}
use text.Mathlib.TextEquality.{eq_iff}
use nasa_cpp.Base.Tests.{if◌then◌else◌, Bool-cases, or_else}
use nasa_cpp.Base.Lists.{filter}
use nasa_cpp.Base.Maps.{JsMap, lookup, insert, lookup-insert}

module _ {ℓ} {A : Type ℓ} where
  -- What a list of items adds to a group that may not be there.
  abbrev pub joined : Option (List A) → List A → Option (List A)
  joined old [] = old
  joined old (x ∷ xs) = some (or_else old [] ++ x ∷ xs)

  joined-cons :
      (old : Option (List A)) (x : A) (xs : List A)
      → joined (some (or_else old [] ++ x ∷ [])) xs ≡ joined old (x ∷ xs)
  joined-cons old x [] = refl
  joined-cons old x (y ∷ xs) = rw (append_assoc (or_else old []) (x ∷ []) (y ∷ xs))

module _ {ℓ} {A : Type ℓ} (key : A → String) where
  abbrev pub add_to_group : JsMap (List A) → A → JsMap (List A)
  add_to_group groups x = insert (key x) (or_else (lookup (key x) groups) [] ++ x ∷ []) groups

  unfoldable pub group_by : JsMap (List A) → List A → JsMap (List A)
  group_by groups [] = groups
  group_by groups (x ∷ xs) = group_by (add_to_group groups x) xs

  lookup-add_to_group :
      (groups : JsMap (List A)) (x : A) (k : String)
      → lookup k (add_to_group groups x) ≡ (
          if str_eq (key x) k
          then some (or_else (lookup k groups) [] ++ x ∷ [])
          else lookup k groups)
  lookup-add_to_group groups x k = ground (
    arith,
    lookup-insert (key x) k (or_else (lookup (key x) groups) [] ++ x ∷ []) groups,
    eq_iff (key x) k,
  )

  -- The group of a key holds the items with that key, in their order.
  pub lookup-group_by :
      (groups : JsMap (List A)) (xs : List A) (k : String)
      → lookup k (group_by groups xs) ≡ joined (lookup k groups) (filter (λ x. str_eq (key x) k) xs)
  unfolding group_by
  lookup-group_by groups [] k = refl
  lookup-group_by groups (x ∷ xs) k =
      let rest = filter (λ y. str_eq (key y) k) xs in
      elim (Bool-cases (str_eq (key x) k)) [
        | inl same ↦
            let step : lookup k (add_to_group groups x)
                ≡ some (or_else (lookup k groups) [] ++ x ∷ []) =
              lookup-add_to_group groups x k ∙ rw same refl in
            rw same (
              lookup-group_by (add_to_group groups x) xs k
              ∙ ap (λ o. joined o rest) step
              ∙ joined-cons (lookup k groups) x rest)
        | inr other ↦
            let step : lookup k (add_to_group groups x) ≡ lookup k groups =
              lookup-add_to_group groups x k ∙ rw other refl in
            rw other (lookup-group_by (add_to_group groups x) xs k ∙ ap (λ o. joined o rest) step)
      ]
