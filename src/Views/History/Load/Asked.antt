-- ===== src/Views/History/Load/Asked.antt =====
-- What `load` of web/nasa_web/static/js/views/history.js asks for, while the charted sensors stay and when
-- one is gone.
use nasa_cpp.Base.{
  ◌≡◌, refl, inl, inr, Bool, true, Option, none, some, List, [], ◌∷◌, ◌++◌, String, arith, eq_refl,
  includes, add_new, includes-add_new, add_new-NoRepeat, NoRepeat, All, All-map, All-append, filter,
  Bool-cases, Option-cases,
}
use nasa_cpp.Entity.{Entity}
use nasa_cpp.Store.{Store, ent}
use nasa_cpp.Views.History.Load.{
  PanelDef, panel_defs, state_defs, is_known, any_known, panels_at_mount, add_series, add_charts,
  add_states, load_ids,
}

abbrev pub all_series : List PanelDef → List (String × String)
all_series [] = []
all_series (p ∷ ps) = p.series ++ all_series ps

-- What some ids hold, others hold too.
abbrev Grows : List String → List String → Type 0
Grows ids ids' = (k : String) → includes ids k ≡ true → includes ids' k ≡ true

add_new-Grows : (ids : List String) (id : String) → Grows ids (add_new ids id)
add_new-Grows ids id k h = ground (arith, includes-add_new ids id k)

filter-All {ℓ} : {A : Type ℓ} (p : A → Bool) (xs : List A) → All (λ x. p x ≡ true) (filter p xs)
filter-All p [] = tt
filter-All p (x ∷ xs) = elim (Bool-cases (p x)) [
  | inl kept ↦ rw kept (kept, filter-All p xs)
  | inr left ↦ rw left (filter-All p xs)
]

All-split {ℓ κ} :
    {A : Type ℓ} (P : A → Type κ) (xs ys : List A) → All P (xs ++ ys) → All P xs × All P ys
All-split P [] ys h = (tt, h)
All-split P (x ∷ xs) ys (p, h) = let (q, r) = All-split P xs ys h in ((p, q), r)

module _ {R : Type 0} (lower : String → String) where
  -- A sensor that the store knows is among those that are asked for.
  abbrev pub asks : Store R → List String → String × String → Bool
  asks s ids (name, label) = elim (ent lower s name) [ none ↦ true | some e ↦ includes ids e.id ]

  abbrev pub Asks : Store R → List String → List (String × String) → Type 0
  Asks s ids xs = All (λ (x : String × String). asks s ids x ≡ true) xs

  abbrev AllKnown : Store R → List (String × String) → Type 0
  AllKnown s xs = All (λ (x : String × String). is_known lower s x ≡ true) xs

  Asks-Grows :
      (s : Store R) (ids ids' : List String) (xs : List (String × String))
      → Grows ids ids'
      → Asks s ids xs
      → Asks s ids' xs
  Asks-Grows s ids ids' xs g h =
      All-map (λ (x : String × String). asks s ids x ≡ true)
        (λ (x : String × String). asks s ids' x ≡ true) (λ x k. step (ent lower s x.0) k) xs h
    where
      step :
          (o : Option (Entity R))
          → (elim o [ none ↦ true | some e ↦ includes ids e.id ]) ≡ true
          → (elim o [ none ↦ true | some e ↦ includes ids' e.id ]) ≡ true
      step none k = refl
      step (some e) k = g e.id k

  -- The ids after a loop: none twice, none lost, and those of the sensors of the loop.
  record Added (s : Store R) (ids : List String) (xs : List (String × String)) (ids' : List String)
      : Type 0 where
    distinct : NoRepeat ids'
    grows : Grows ids ids'
    asked : Asks s ids' xs

  add_states-Added :
      (s : Store R) (xs : List (String × String)) (ids : List String)
      → NoRepeat ids
      → Added s ids xs (add_states lower s xs ids)
  unfolding add_states
  add_states-Added s [] ids d = record { distinct = d; grows = λ k h. h; asked = tt }
  add_states-Added s ((name, label) ∷ xs) ids d = elim (Option-cases (ent lower s name)) [
    | inl missing ↦
        let rest = add_states-Added s xs ids d in
        rw (missing, add_states)
          (record {
            distinct = rest.distinct;
            grows = rest.grows;
            asked = (rw (missing, asks) refl, rest.asked);
          })
    | inr (e, found) ↦
        let rest = add_states-Added s xs (add_new ids e.id) (add_new-NoRepeat ids e.id d) in
        rw (found, add_states)
          (record {
            distinct = rest.distinct;
            grows = λ k h. rest.grows k (add_new-Grows ids e.id k h);
            asked = (
              rw (found, asks)
                  (rest.grows e.id (ground (arith, includes-add_new ids e.id e.id, eq_refl e.id))),
              rest.asked,
            );
          })
  ]

  -- Where every sensor is known, the loop that may throw does what the other does.
  add_series-states :
      (s : Store R) (xs : List (String × String)) (ids : List String)
      → AllKnown s xs
      → add_series lower s xs ids ≡ some (add_states lower s xs ids)
  unfolding add_series add_states
  add_series-states s [] ids h = refl
  add_series-states s ((name, label) ∷ xs) ids (known, h) = elim (Option-cases (ent lower s name)) [
    | inl missing ↦ absurd (ground arith)
    | inr (e, found) ↦
        rw (found, add_series, add_states) (add_series-states s xs (add_new ids e.id) h)
  ]

  add_states-append :
      (s : Store R) (xs ys : List (String × String)) (ids : List String)
      → add_states lower s (xs ++ ys) ids ≡ add_states lower s ys (add_states lower s xs ids)
  unfolding add_states
  add_states-append s [] ys ids = refl
  add_states-append s ((name, label) ∷ xs) ys ids = elim (Option-cases (ent lower s name)) [
    | inl missing ↦ rw (missing, add_states) (add_states-append s xs ys ids)
    | inr (e, found) ↦ rw (found, add_states) (add_states-append s xs ys (add_new ids e.id))
  ]

  add_charts-states :
      (s : Store R) (ps : List PanelDef) (ids : List String)
      → AllKnown s (all_series ps)
      → add_charts lower s ps ids ≡ some (add_states lower s (all_series ps) ids)
  unfolding add_charts add_states
  add_charts-states s [] ids h = refl
  add_charts-states s (p ∷ ps) ids h =
      let (here, later) =
        All-split (λ (x : String × String). is_known lower s x ≡ true) p.series (all_series ps) h in
      rw
        (
          add_charts,
          add_series-states s p.series ids here,
          add_states-append s p.series (all_series ps) ids,
        )
        (add_charts-states s ps (add_states lower s p.series ids) later)

  at_mount-AllKnown :
      (s : Store R) (ps : List PanelDef) → AllKnown s (all_series (panels_at_mount lower s ps))
  unfolding panels_at_mount
  at_mount-AllKnown s [] = tt
  at_mount-AllKnown s (p ∷ ps) = elim (Bool-cases (any_known lower s p.series)) [
    | inl some_there ↦ rw some_there (
        All-append (λ (x : String × String). is_known lower s x ≡ true)
          (filter (is_known lower s) p.series) (all_series (panels_at_mount lower s ps))
          (filter-All (is_known lower s) p.series) (at_mount-AllKnown s ps))
    | inr none_there ↦ rw none_there (at_mount-AllKnown s ps)
  ]

  -- With the entities that it was mounted with, the page asks the server for every sensor of its charts
  -- and every known state, and for none twice.
  pub load_ids-Asks :
      (s : Store R)
      → let charts = panels_at_mount lower s panel_defs in
        (ids : List String) × (load_ids lower s charts ≡ some ids)
        × NoRepeat ids
        × Asks s ids (all_series charts)
        × Asks s ids state_defs
  unfolding load_ids
  load_ids-Asks s =
      let charts = panels_at_mount lower s panel_defs in
      let first = add_states-Added s (all_series charts) [] tt in
      let ids = add_states lower s (all_series charts) [] in
      let second = add_states-Added s state_defs ids first.distinct in
      (
        add_states lower s state_defs ids,
        rw (load_ids, add_charts-states s charts [] (at_mount-AllKnown s panel_defs)) refl,
        second.distinct,
        Asks-Grows s ids (add_states lower s state_defs ids) (all_series charts) second.grows
            first.asked,
        second.asked,
      )

  series-missing :
      (s : Store R) (xs ys : List (String × String)) (name label : String) (ids : List String)
      → ent lower s name ≡ none
      → add_series lower s (xs ++ (name, label) ∷ ys) ids ≡ none
  unfolding add_series
  series-missing s [] ys name label ids h = rw (h, add_series) refl
  series-missing s ((n, l) ∷ xs) ys name label ids h = elim (Option-cases (ent lower s n)) [
    | inl missing ↦ rw (missing, add_series) refl
    | inr (e, found) ↦
        rw (found, add_series) (series-missing s xs ys name label (add_new ids e.id) h)
  ]

  -- If a sensor of a chart on the page is gone from the store, `load` throws before it asks for anything,
  -- whatever other charts there are.
  pub missing_sensor_stops_load :
      (s : Store R) (before after : List PanelDef) (p : PanelDef) (xs ys : List (String × String))
      (name label : String)
      → p.series ≡ xs ++ (name, label) ∷ ys
      → ent lower s name ≡ none
      → load_ids lower s (before ++ p ∷ after) ≡ none
  unfolding load_ids
  missing_sensor_stops_load s before after p xs ys name label listed gone =
      rw (load_ids, charts_missing before []) refl
    where
      charts_missing :
          (ps : List PanelDef) (ids : List String) → add_charts lower s (ps ++ p ∷ after) ids ≡ none
      charts_missing [] ids =
          rw (add_charts, listed, series-missing s xs ys name label ids gone) refl
      charts_missing (q ∷ ps) ids = elim (Option-cases (add_series lower s q.series ids)) [
        | inl stops ↦ rw (add_charts, stops) refl
        | inr (ids', on) ↦ rw (add_charts, on) (charts_missing ps ids')
      ]
