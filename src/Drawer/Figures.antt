-- ===== src/Drawer/Figures.antt =====
-- What `load` of web/nasa_web/static/js/drawer.js computes for an entity with states: the time spent
-- in each state, and the table of recent changes. A series is a list of samples, a time and a text.
use nasa_cpp.Base.{
  ℕ, zero, suc, ◌≤◌, ◌≡◌, ◌≢◌, refl, sym, ap, ◌∙◌, inl, inr, Bool, true, false, not, Option, none,
  some, List, [], ◌∷◌, String, JsMap, lookup, insert, lookup-insert, filter, length, or_else,
  str_eq, eq_iff, eq_refl, if◌then◌else◌, Bool-cases, arith,
}
use mathlib.Core.Bool.{false≢true}
use nasa_cpp.Base.Number.{Number, ◌⊕◌, ◌⊖◌}

-- `text ?? "–"`
abbrev pub state_of : Option String → String
state_of text = or_else text "–"

-- `s === t`, for texts that may be missing
abbrev pub same_state : Option String → Option String → Bool
same_state none none = true
same_state (some s) (some t) = str_eq s t
same_state _ _ = false

module _ {R : Type 0} ⦃num : Number R⦄ where
  -- `i + 1 < s.t.length ? s.t[i + 1] : end`
  abbrev pub until : List (R × Option String) → R → R
  until [] finish = finish
  until ((u, text) ∷ rest) finish = u

  -- Each sample's state, and how long it lasts: `k` and `b - a`.
  unfoldable pub stays : List (R × Option String) → R → List (String × R)
  stays [] finish = []
  stays ((t, text) ∷ rest) finish = (state_of text, until rest finish ⊖ t) ∷ stays rest finish

  -- `x || 0`
  abbrev pub or_zero : Option R → R
  or_zero none = num.of_nat 0
  or_zero (some x) = if num.same x (num.of_nat 0) then num.of_nat 0 else x

  -- `totals.set(k, (totals.get(k) || 0) + (b - a))`
  abbrev pub add_stay : JsMap R → String × R → JsMap R
  add_stay totals (k, x) = insert k (or_zero (lookup k totals) ⊕ x) totals

  unfoldable pub add_stays : JsMap R → List (String × R) → JsMap R
  add_stays totals [] = totals
  add_stays totals (s ∷ ss) = add_stays (add_stay totals s) ss

  -- The map `totals` at the end of the loop.
  unfoldable pub state_totals : List (R × Option String) → R → JsMap R
  unfolding stays add_stays
  state_totals samples finish = add_stays [] (stays samples finish)

  -- The stays of one state, summed up in their order.
  abbrev pub sum_up : Option R → List (String × R) → Option R
  sum_up old [] = old
  sum_up old ((k, x) ∷ ss) = sum_up (some (or_zero old ⊕ x)) ss

  abbrev pub stays_in : String → List (String × R) → List (String × R)
  stays_in k ss = filter (λ (s : String × R). str_eq s.0 k) ss

  lookup-add_stays :
      (totals : JsMap R) (ss : List (String × R)) (k : String)
      → lookup k (add_stays totals ss) ≡ sum_up (lookup k totals) (stays_in k ss)
  unfolding add_stays
  lookup-add_stays totals [] k = refl
  lookup-add_stays totals ((j, x) ∷ ss) k =
      let step = lookup-insert j k (or_zero (lookup j totals) ⊕ x) totals in
      let rest = lookup-add_stays (add_stay totals (j, x)) ss k in
      elim (Bool-cases (str_eq j k)) [
        | inl same ↦
            let j≡k : j ≡ k = (eq_iff j k).0 same in
            rw same (rest ∙ ap (λ o. sum_up o (stays_in k ss)) (step ∙ rw (same, j≡k) refl))
        | inr other ↦ rw other (rest ∙ ap (λ o. sum_up o (stays_in k ss)) (step ∙ rw other refl))
      ]

  -- A state has a share exactly if a sample shows it, and its time is that of its samples, each until
  -- the next sample or the end of the range, added up in their order.
  pub state_totals_lem :
      (samples : List (R × Option String)) (finish : R) (k : String)
      → lookup k (state_totals samples finish) ≡ sum_up none (stays_in k (stays samples finish))
  unfolding state_totals
  state_totals_lem samples finish k = lookup-add_stays [] (stays samples finish) k

same_state_eq : (s t : Option String) → same_state s t ≡ true → s ≡ t
same_state_eq none none h = refl
same_state_eq none (some t) h = cc
same_state_eq (some s) none h = cc
same_state_eq (some s) (some t) h = ap some ((eq_iff s t).0 h)

same_state_refl : (s : Option String) → same_state s s ≡ true
same_state_refl none = refl
same_state_refl (some s) = eq_refl s

module _ {R : Type 0} where
  -- `i === 0 || s.text[i] !== s.text[i - 1]`, at a sample and those before it, the last one first
  abbrev pub is_change : Option String → List (R × Option String) → Bool
  is_change text [] = true
  is_change text ((u, before) ∷ rest) = not (same_state text before)

  -- The loop that goes backwards through the samples, the last one first, while there is room for
  -- `room` rows. A row is the sample that it shows.
  unfoldable pub changes_from : ℕ → List (R × Option String) → List (R × Option String)
  changes_from zero samples = []
  changes_from (suc room) [] = []
  changes_from (suc room) ((t, text) ∷ rest) =
      let taken = (t, text) ∷ changes_from room rest in
      let passed = changes_from (suc room) rest in if is_change text rest then taken else passed

  -- `changes`, of samples the last one first
  unfoldable pub recent_changes : List (R × Option String) → List (R × Option String)
  unfolding changes_from
  recent_changes samples = changes_from 12 samples

  -- Neighbouring rows show different states.
  abbrev pub Alternates : List (R × Option String) → Type 0
  Alternates [] = Unit
  Alternates (s ∷ []) = Unit
  Alternates (s ∷ u ∷ rows) = (s.1 ≢ u.1) × Alternates (u ∷ rows)

  -- Every sample that shows another state than the one before it, the last one first.
  abbrev pub all_changes : List (R × Option String) → List (R × Option String)
  all_changes [] = []
  all_changes ((t, text) ∷ rest) =
      if is_change text rest then (t, text) ∷ all_changes rest else all_changes rest

  abbrev pub take : ℕ → List (R × Option String) → List (R × Option String)
  take zero xs = []
  take (suc n) [] = []
  take (suc n) (x ∷ xs) = x ∷ take n xs

  length-changes_from :
      (room : ℕ) (samples : List (R × Option String)) → length (changes_from room samples) ≤ room
  unfolding changes_from
  length-changes_from zero samples = omega arith
  length-changes_from (suc room) [] = omega arith
  length-changes_from (suc room) ((t, text) ∷ rest) =
      ground (arith, length-changes_from room rest, length-changes_from (suc room) rest)

  changes_from-take :
      (room : ℕ) (samples : List (R × Option String))
      → changes_from room samples ≡ take room (all_changes samples)
  unfolding changes_from
  changes_from-take zero samples = refl
  changes_from-take (suc room) [] = refl
  changes_from-take (suc room) ((t, text) ∷ rest) = elim (Bool-cases (is_change text rest)) [
    | inl new ↦ rw new (ap (λ rows. (t, text) ∷ rows) (changes_from-take room rest))
    | inr old ↦ rw old (changes_from-take (suc room) rest)
  ]

  -- The first row, if there is one, shows `text`.
  abbrev Shows : Option String → List (R × Option String) → Type 0
  Shows text [] = Unit
  Shows text (s ∷ rows) = text ≡ s.1

  first_change :
      (room : ℕ) (t : R) (text : Option String) (rest : List (R × Option String))
      → Shows text (changes_from room ((t, text) ∷ rest))
  unfolding changes_from
  first_change zero t text rest = tt
  first_change (suc room) t text [] = refl
  first_change (suc room) t text ((u, before) ∷ rest) = elim (Bool-cases (same_state text before)) [
    | inr new ↦ rw new refl
    | inl old ↦
        let e = same_state_eq text before old in
        rw old (rw e (first_change (suc room) u before rest))
  ]

  cons-Alternates :
      (t : R) (text before : Option String) (rows : List (R × Option String))
      → text ≢ before
      → Shows before rows
      → Alternates rows
      → Alternates ((t, text) ∷ rows)
  cons-Alternates t text before [] ne h a = tt
  cons-Alternates t text before (r ∷ rows) ne h a = (λ e. ne (e ∙ sym h), a)

  changes_from-Alternates :
      (room : ℕ) (samples : List (R × Option String)) → Alternates (changes_from room samples)
  unfolding changes_from
  changes_from-Alternates zero samples = tt
  changes_from-Alternates (suc room) [] = tt
  changes_from-Alternates (suc zero) ((t, text) ∷ []) = tt
  changes_from-Alternates (suc (suc room)) ((t, text) ∷ []) = tt
  changes_from-Alternates (suc room) ((t, text) ∷ (u, before) ∷ rest) =
      elim (Bool-cases (same_state text before)) [
        | inr new ↦ rw new (
            cons-Alternates t text before (changes_from room ((u, before) ∷ rest))
              (λ e. false≢true (sym new ∙ rw e (same_state_refl before)))
              (first_change room u before rest) (changes_from-Alternates room ((u, before) ∷ rest)))
        | inl old ↦ rw old (changes_from-Alternates (suc room) ((u, before) ∷ rest))
      ]

  -- The table of recent changes has at most twelve rows. They are the latest samples at which the state
  -- changed, the last one first, and neighbouring rows show different states.
  pub recent_changes_lem :
      (samples : List (R × Option String))
      → (recent_changes samples ≡ take 12 (all_changes samples))
        × (length (recent_changes samples) ≤ 12)
        × Alternates (recent_changes samples)
  unfolding recent_changes
  recent_changes_lem samples = (
    changes_from-take 12 samples,
    length-changes_from 12 samples,
    changes_from-Alternates 12 samples,
  )
