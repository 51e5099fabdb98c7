-- ===== src/Base/Maps.antt =====
-- A JavaScript `Map` with string keys: an association list in the order of insertion.
use Prim.Native.String.{String}
use mathlib.Core.Path.{◌≡◌, refl, subst}
use mathlib.Core.Bool.{Bool, true, false, ◌||◌}
use mathlib.Core.List.{List, [], ◌∷◌, ◌++◌}
use mathlib.Core.Logic.{◌≢◌, inl, inr}
use mathlib.Core.Option.{Option, none, some}
use native.Mathlib.Omega.{arith}
use text.Mathlib.Text.{◌==◌ as str_eq}
use text.Mathlib.TextEquality.{eq_iff}
use nasa_cpp.Base.Tests.{if◌then◌else◌, Bool-cases}
use nasa_cpp.Base.Lists.{All, Fresh, NoRepeat}

abbrev pub JsMap {ℓ} : Type ℓ → Type ℓ
JsMap V = List (String × V)

-- `xs.includes(s)`, and `xs.has(s)` of a set
abbrev pub includes : List String → String → Bool
includes [] s = false
includes (x ∷ xs) s = str_eq x s || includes xs s

module _ {ℓ} {V : Type ℓ} where
  -- `m.get(k)`
  abbrev pub lookup : String → JsMap V → Option V
  lookup k [] = none
  lookup k ((j, v) ∷ m) = if str_eq j k then some v else lookup k m

  -- `m.set(k, v)`: a key that is there keeps its place.
  abbrev pub insert : String → V → JsMap V → JsMap V
  insert k v [] = (k, v) ∷ []
  insert k v ((j, w) ∷ m) = if str_eq j k then (k, v) ∷ m else (j, w) ∷ insert k v m

  -- `m.delete(k)`
  abbrev pub delete : String → JsMap V → JsMap V
  delete k [] = []
  delete k ((j, w) ∷ m) = let rest = delete k m in if str_eq j k then rest else (j, w) ∷ rest

  pub lookup-insert :
      (k j : String) (v : V) (m : JsMap V)
      → lookup j (insert k v m) ≡ (if str_eq k j then some v else lookup j m)
  lookup-insert k j v [] = refl
  lookup-insert k j v ((i, w) ∷ m) =
      ground (arith, eq_iff k j, eq_iff i k, eq_iff i j, lookup-insert k j v m)

  pub lookup-delete :
      (k j : String) (m : JsMap V)
      → lookup j (delete k m) ≡ (if str_eq k j then none else lookup j m)
  lookup-delete k j [] = ground arith
  lookup-delete k j ((i, w) ∷ m) =
      ground (arith, eq_iff k j, eq_iff i k, eq_iff i j, lookup-delete k j m)

  pub insert-All {κ} :
      (P : String × V → Type κ) (k : String) (v : V) (m : JsMap V)
      → All P m
      → P (k, v)
      → All P (insert k v m)
  insert-All P k v [] h p = (p, tt)
  insert-All P k v ((j, w) ∷ m) (q, h) p =
      elim (str_eq j k) as (λ b. All P (if b then (k, v) ∷ m else (j, w) ∷ insert k v m)) [
        | true ↦ (p, h)
        | false ↦ (q, insert-All P k v m h p)
      ]

  pub lookup-entry {κ} :
      (P : String × V → Type κ) (k : String) (m : JsMap V) {v : V}
      → All P m
      → lookup k m ≡ some v
      → P (k, v)
  lookup-entry P k [] h e = cc
  lookup-entry P k ((j, w) ∷ m) (q, h) e = pick (str_eq j k) (eq_iff j k).0 e (lookup-entry P k m h)
    where
      pick :
          (b : Bool) {v : V}
          → (b ≡ true → j ≡ k)
          → (if b then some w else lookup k m) ≡ some v
          → (lookup k m ≡ some v → P (k, v))
          → P (k, v)
      pick true same e f = let e' : w ≡ _ = cc in rw e' at (subst (λ i. P (i, w)) (same refl) q)
      pick false same e f = f e

  pub lookup-All {κ} :
      (P : V → Type κ) (k : String) (m : JsMap V) {v : V}
      → All (λ (e : String × V). P e.1) m
      → lookup k m ≡ some v
      → P v
  lookup-All P k m h e = lookup-entry (λ (a : String × V). P a.1) k m h e

-- `xs.add(s)` of a set, which keeps the order of insertion
abbrev pub add_new : List String → String → List String
add_new xs s = if includes xs s then xs else xs ++ s ∷ []

pub includes-append :
    (xs ys : List String) (k : String) → includes (xs ++ ys) k ≡ (includes xs k || includes ys k)
includes-append [] ys k = refl
includes-append (x ∷ xs) ys k = ground (arith, includes-append xs ys k)

pub includes-add_new :
    (xs : List String) (s k : String) → includes (add_new xs s) k ≡ (includes xs k || str_eq s k)
includes-add_new xs s k = ground (arith, includes-append xs (s ∷ []) k, eq_iff s k)

Fresh-append : (xs : List String) (k s : String) → k ≢ s → Fresh k xs → Fresh k (xs ++ s ∷ [])
Fresh-append [] k s ne f = (ne, tt)
Fresh-append (x ∷ xs) k s ne (g, f) = (g, Fresh-append xs k s ne f)

append-NoRepeat :
    (xs : List String) (s : String) → includes xs s ≡ false → NoRepeat xs → NoRepeat (xs ++ s ∷ [])
append-NoRepeat [] s h d = (tt, tt)
append-NoRepeat (x ∷ xs) s h (f, d) = (
  Fresh-append xs x s (ground (arith, eq_iff x s)) f,
  append-NoRepeat xs s (ground (arith, eq_iff x s)) d,
)

pub add_new-NoRepeat : (xs : List String) (s : String) → NoRepeat xs → NoRepeat (add_new xs s)
add_new-NoRepeat xs s d = elim (Bool-cases (includes xs s)) [
  | inl known ↦ rw known d
  | inr new ↦ rw new (append-NoRepeat xs s new d)
]
