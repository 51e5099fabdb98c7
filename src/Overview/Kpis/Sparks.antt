-- ===== src/Overview/Kpis/Sparks.antt =====
-- Which small charts the tiles of web/nasa_web/static/js/views/overview.js get from the history.
use nasa_cpp.Base.{
  ◌≡◌, refl, ◌∙◌, inl, inr, Bool, true, false, ◌||◌, Option, none, some, List, [], ◌∷◌, String,
  JsMap, lookup, insert, lookup-insert, str_eq, eq_iff, if◌then◌else◌, arith, Option-cases,
}
use nasa_cpp.Base.Number.{Number}
use nasa_cpp.Store.{Store, ent}
use nasa_cpp.Overview.Resample.{resample}
use nasa_cpp.Overview.Kpis.{Series, kpis, spark_data}

module _ {R : Type 0} ⦃num : Number R⦄ (lower : String → String) where
  -- Some tile is that of the entity with the id.
  abbrev pub has_tile : Store R → List (String × String) → String → Bool
  has_tile s [] id = false
  has_tile s ((name, label) ∷ ks) id = elim (ent lower s name) [
    | none ↦ has_tile s ks id
    | some e ↦ str_eq e.id id || has_tile s ks id
  ]

  abbrev pub resampled : R → R → Option (Series R) → Option (List (Option R))
  resampled start finish none = none
  resampled start finish (some x) = some (resample x.values start finish 60)

  -- What is known of an id after the loop.
  abbrev kept_or :
      Bool → Option (List (Option R)) → Option (List (Option R)) → Option (List (Option R))
  kept_or false new old = old
  kept_or true none old = old
  kept_or true (some vs) old = some vs

  spark_data-lookup :
      (s : Store R) (answer : JsMap (Series R)) (start finish : R) (ks : List (String × String))
      (sparks : JsMap (List (Option R))) (id : String)
      → lookup id (spark_data lower s answer start finish ks sparks)
        ≡ kept_or (has_tile s ks id) (resampled start finish (lookup id answer)) (lookup id sparks)
  unfolding spark_data
  spark_data-lookup s answer start finish [] sparks id = refl
  spark_data-lookup s answer start finish ((name, label) ∷ ks) sparks id =
      elim (Option-cases (ent lower s name)) [
        | inl missing ↦
            rw (missing, spark_data, has_tile)
              (spark_data-lookup s answer start finish ks sparks id)
        | inr (e, found) ↦ elim (Option-cases (lookup e.id answer)) [
          | inl silent ↦
              rw (found, silent, spark_data, has_tile)
                (ground
                  (arith, spark_data-lookup s answer start finish ks sparks id, eq_iff e.id id))
          | inr (x, told) ↦
              let v = resample x.values start finish 60 in
              rw (found, told, spark_data, has_tile)
                (ground (
                  arith,
                  spark_data-lookup s answer start finish ks (insert e.id v sparks) id,
                  lookup-insert e.id id v sparks,
                  eq_iff e.id id,
                ))
        ]
      ]

  -- After the history has arrived, the small chart of an id is the series of the answer for it, brought
  -- to 60 even times, if a tile is that of its entity, and there is none for any other id: the charts
  -- of an older answer are gone.
  pub spark_data_lem :
      (s : Store R) (answer : JsMap (Series R)) (start finish : R) (id : String)
      → lookup id (spark_data lower s answer start finish kpis [])
        ≡ (if has_tile s kpis id then resampled start finish (lookup id answer) else none)
  spark_data_lem s answer start finish id =
      spark_data-lookup s answer start finish kpis [] id ∙ none_before (has_tile s kpis id) _
    where
      none_before :
          (b : Bool) (new : Option (List (Option R)))
          → kept_or b new none ≡ (if b then new else none)
      none_before false new = refl
      none_before true none = refl
      none_before true (some vs) = refl
