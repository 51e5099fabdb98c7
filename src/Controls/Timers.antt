-- ===== src/Controls/Timers.antt =====
-- Timeouts that have been set and have not run, under the identifiers of `setTimeout`.
use nasa_cpp.Base.{
  ℕ, ◌≡◌, refl, ◌≢◌, Option, none, some, List, [], ◌∷◌, arith, All, if◌then◌else◌, ◌==◌, Bool-cases,
  inl, inr, subst,
}

module _ {ℓ} {A : Type ℓ} where
  unfoldable pub lookup_timer : ℕ → List (ℕ × A) → Option A
  lookup_timer t [] = none
  lookup_timer t ((i, a) ∷ ts) = if i == t then some a else lookup_timer t ts

  -- `clearTimeout(t)`
  unfoldable pub delete_timer : ℕ → List (ℕ × A) → List (ℕ × A)
  delete_timer t [] = []
  delete_timer t ((i, a) ∷ ts) =
      let rest = delete_timer t ts in if i == t then rest else (i, a) ∷ rest

  pub lookup-delete_timer :
      (t u : ℕ) (ts : List (ℕ × A))
      → lookup_timer u (delete_timer t ts) ≡ (if t == u then none else lookup_timer u ts)
  unfolding lookup_timer delete_timer
  lookup-delete_timer t u [] = ground arith
  lookup-delete_timer t u ((i, a) ∷ ts) = ground (arith, lookup-delete_timer t u ts)

  pub lookup-cons_timer :
      (t u : ℕ) (a : A) (ts : List (ℕ × A))
      → lookup_timer u ((t, a) ∷ ts) ≡ (if t == u then some a else lookup_timer u ts)
  unfolding lookup_timer
  lookup-cons_timer t u a ts = refl

  pub delete_timer-All {κ μ} :
      (P : ℕ × A → Type κ) (Q : ℕ × A → Type μ) (t : ℕ) (ts : List (ℕ × A))
      → ((a : ℕ × A) → a.0 ≢ t → P a → Q a)
      → All P ts
      → All Q (delete_timer t ts)
  unfolding delete_timer
  delete_timer-All P Q t [] f h = tt
  delete_timer-All P Q t ((i, a) ∷ ts) f (p, h) = elim (Bool-cases (i == t)) [
    | inl same ↦ rw same (delete_timer-All P Q t ts f h)
    | inr other ↦ rw other (f (i, a) (ground arith) p, delete_timer-All P Q t ts f h)
  ]

  pub lookup_timer-All {κ} :
      (P : ℕ × A → Type κ) (t : ℕ) (ts : List (ℕ × A)) {a : A}
      → All P ts
      → lookup_timer t ts ≡ some a
      → P (t, a)
  unfolding lookup_timer
  lookup_timer-All P t [] h e = cc
  lookup_timer-All P t ((i, a) ∷ ts) {a = b} (p, h) e = elim (Bool-cases (i == t)) [
    | inl same ↦
        let i≡t : i ≡ t = ground arith in
        let a≡b : a ≡ b = ground arith in subst (λ u. P (u, b)) i≡t (subst (λ x. P (i, x)) a≡b p)
    | inr other ↦ lookup_timer-All P t ts h (rw other at e)
  ]
