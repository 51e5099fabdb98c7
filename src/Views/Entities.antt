-- ===== src/Views/Entities.antt =====
-- web/nasa_web/static/js/views/entities.js: the counts of the filter chips, and the filtered list.
pub mod Table
use nasa_cpp.Base.{
  ℕ, ◌+◌, ◌≡◌, refl, inl, inr, Bool, true, ◌&&◌, ◌||◌, List, [], ◌∷◌, String, JsMap, lookup, insert,
  arith, filter, str_eq, eq_iff, length, or_else, Bool-cases, lookup-insert, ◌∙◌, ap,
}
use nasa_cpp.Entity.{Entity}

module _ {R : Type 0} where
  -- `counts[e.category] = (counts[e.category] || 0) + 1`
  unfoldable pub count_categories : JsMap ℕ → List (Entity R) → JsMap ℕ
  count_categories counts [] = counts
  count_categories counts (e ∷ es) =
      count_categories (insert e.category (or_else (lookup e.category counts) 0 + 1) counts) es

  -- `{ all: all.length }`, and the loop
  unfoldable pub counts_of : List (Entity R) → JsMap ℕ
  unfolding count_categories
  counts_of all = count_categories (("all", length all) ∷ []) all

  -- `lower` stands for `toLowerCase`, `includes` for the method of strings.
  module _ (lower : String → String) (includes : String → String → Bool) where
    unfoldable pub matches : String → String → Entity R → Bool
    matches chip query e =
        (str_eq chip "all" || str_eq e.category chip)
        && (str_eq query "" || includes (lower e.name) query || includes e.id query)

    -- The list before it is sorted.
    unfoldable pub listed : String → String → List (Entity R) → List (Entity R)
    unfolding matches
    listed chip query all = filter (matches chip query) all

  count_categories-lem :
      (counts : JsMap ℕ) (es : List (Entity R)) (k : String)
      → or_else (lookup k (count_categories counts es)) 0
        ≡ or_else (lookup k counts) 0 + length (filter (λ (e : Entity R). str_eq e.category k) es)
  unfolding count_categories
  count_categories-lem counts [] k = omega arith
  count_categories-lem counts (e ∷ es) k =
      let n = or_else (lookup e.category counts) 0 + 1 in
      ground (
        arith,
        count_categories-lem (insert e.category n counts) es k,
        lookup-insert e.category k n counts,
        eq_iff e.category k,
      )

  filter-all : (es : List (Entity R)) → filter (λ e. true) es ≡ es
  filter-all [] = refl
  filter-all (e ∷ es) = ap (λ t. e ∷ t) (filter-all es)

  listed-no_query :
      (lower : String → String) (includes : String → String → Bool) (all : List (Entity R))
      (chip : String)
      → listed lower includes chip "" all
        ≡ filter (λ (e : Entity R). str_eq chip "all" || str_eq e.category chip) all
  unfolding listed
  listed-no_query lower includes [] chip = refl
  listed-no_query lower includes (e ∷ all) chip =
      ground (arith, listed-no_query lower includes all chip)

  -- With an empty search, the number on a chip is the number of entities that it lists, unless a
  -- category is itself called "all".
  pub counts_of-listed :
      (lower : String → String) (includes : String → String → Bool) (all : List (Entity R))
      (chip : String)
      → filter (λ (e : Entity R). str_eq e.category "all") all ≡ []
      → or_else (lookup chip (counts_of all)) 0 ≡ length (listed lower includes chip "" all)
  unfolding counts_of listed
  counts_of-listed lower includes all chip plain =
      let counted = count_categories-lem (("all", length all) ∷ []) all chip in
      elim (Bool-cases (str_eq chip "all")) [
        | inl every ↦
            let same : chip ≡ "all" = (eq_iff chip "all").0 every in
            let shown : listed lower includes chip "" all ≡ all =
              listed-no_query lower includes all chip ∙ rw every (filter-all all) in
            let none_named : filter (λ (e : Entity R). str_eq e.category chip) all ≡ [] =
              rw same plain in
            ground (arith, counted, ap length shown, ap length none_named, eq_iff "all" chip)
        | inr one ↦
            let shown : listed lower includes chip "" all
                ≡ filter (λ (e : Entity R). str_eq e.category chip) all =
              listed-no_query lower includes all chip ∙ rw one refl in
            ground (arith, counted, ap length shown, eq_iff "all" chip, eq_iff chip "all")
      ]
