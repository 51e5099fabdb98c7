-- ===== src/Views/History/Reload/InOrder.antt =====
-- Which interval the charts of web/nasa_web/static/js/views/history.js show.
use nasa_cpp.Base.{
  erase_at, ℕ, suc, ◌≡◌, ◌⊎◌, refl, sym, subst, inl, inr, Bool, true, false, Option, none, some,
  List, [], ◌∷◌, ◌++◌, get_elem?, All, Bool-cases, or_else,
}
use nasa_cpp.Base.Number.{Number}
use nasa_cpp.Views.History.{Range, Move, move, range, reloads}
use nasa_cpp.Views.History.Reload.{
  RangeBar, Past, PastEvent, moved, tick, answered, render_range_bar, some_gone, fill_charts, load,
  on_loaded, past_step, past_run, mounted,
}

module _ {R : Type 0} ⦃num : Number R⦄ where
  -- The bar names the interval; an end it calls "now" is not written out.
  abbrev pub Names : RangeBar R → R × R → Type 0
  Names bar (a, b) = (bar.start ≡ a) × ((bar.until ≡ none) ⊎ (bar.until ≡ some b))

  -- Every sensor of the charts stays known, each answer is that to the oldest request, and no request
  -- fails.
  abbrev pub IsInOrder : List (PastEvent R) → Type 0
  IsInOrder [] = Unit
  IsInOrder (moved now m gone ∷ es) = ((i : ℕ) → gone i ≡ false) × IsInOrder es
  IsInOrder (tick now gone ∷ es) = ((i : ℕ) → gone i ≡ false) × IsInOrder es
  IsInOrder (answered i ok gone ∷ es) =
      (i ≡ 0) × (ok ≡ true) × ((i : ℕ) → gone i ≡ false) × IsInOrder es

  -- Each chart holds an interval.
  abbrev pub Hold : R × R → List (Option (R × R)) → Type 0
  Hold p charts = All (λ (c : Option (R × R)). c ≡ some p) charts

  -- Each chart holds an interval once all that waits is answered in order.
  abbrev WillHold : R × R → List (Option (R × R)) → List (R × R) → Type 0
  WillHold p charts [] = Hold p charts
  WillHold p charts (x ∷ []) = x ≡ p
  WillHold p charts (x ∷ y ∷ xs) = WillHold p charts (y ∷ xs)

  WillHold-snoc :
      (x : R × R) (charts : List (Option (R × R))) (xs : List (R × R))
      → WillHold x charts (xs ++ x ∷ [])
  WillHold-snoc x charts [] = refl
  WillHold-snoc x charts (y ∷ []) = refl
  WillHold-snoc x charts (y ∷ z ∷ xs) = WillHold-snoc x charts (z ∷ xs)

  some_gone-none :
      (gone : ℕ → Bool) (i : ℕ) (charts : List (Option (R × R)))
      → ((i : ℕ) → gone i ≡ false)
      → some_gone i gone charts ≡ false
  some_gone-none gone i [] h = refl
  some_gone-none gone i (c ∷ cs) h = rw (h i) (some_gone-none gone (suc i) cs h)

  fill_charts-Hold :
      (asked : R × R) (gone : ℕ → Bool) (i : ℕ) (charts : List (Option (R × R)))
      → ((i : ℕ) → gone i ≡ false)
      → Hold asked (fill_charts asked gone i charts)
  fill_charts-Hold asked gone i [] h = tt
  fill_charts-Hold asked gone i (c ∷ cs) h =
      rw (h i) (refl, fill_charts-Hold asked gone (suc i) cs h)

  -- Where something waits, what the charts hold now does not matter.
  WillHold-kept :
      (p x : R × R) (charts charts' : List (Option (R × R))) (xs : List (R × R))
      → WillHold p charts (x ∷ xs)
      → WillHold p charts' (x ∷ xs)
  WillHold-kept p x charts charts' [] w = w
  WillHold-kept p x charts charts' (y ∷ xs) w = WillHold-kept p y charts charts' xs w

  -- The first answer fills the charts; what still waits decides what they will hold.
  answer-WillHold :
      (p x : R × R) (gone : ℕ → Bool) (charts : List (Option (R × R))) (xs : List (R × R))
      → ((i : ℕ) → gone i ≡ false)
      → WillHold p charts (x ∷ xs)
      → WillHold p (fill_charts x gone 0 charts) xs
  answer-WillHold p x gone charts [] h w =
      subst (λ q. Hold q (fill_charts x gone 0 charts)) w (fill_charts-Hold x gone 0 charts h)
  answer-WillHold p x gone charts (y ∷ []) h w = w
  answer-WillHold p x gone charts (y ∷ z ∷ xs) h w =
      WillHold-kept p z charts (fill_charts x gone 0 charts) xs w

  -- The bar names the interval that the charts will hold.
  abbrev WillShow : Past R → Type 0
  WillShow s = (p : R × R) × WillHold p s.charts s.waiting × Names s.bar p

  render_range_bar-Names : (now : R) (r : Range R) → Names (render_range_bar now r) (range now r)
  unfolding render_range_bar range
  render_range_bar-Names now r = (refl, ends r.finish)
    where
      ends : (o : Option R) → (o ≡ none) ⊎ (o ≡ some (or_else o now))
      ends none = inl refl
      ends (some e) = inr refl

  load-WillShow :
      (now : R) (gone : ℕ → Bool) (s : Past R)
      → ((i : ℕ) → gone i ≡ false)
      → WillShow (load now gone s)
  unfolding load
  load-WillShow now gone s h = rw (some_gone-none gone 0 s.charts h) (
    range now s.shown,
    WillHold-snoc (range now s.shown) s.charts s.waiting,
    render_range_bar-Names now s.shown,
  )

  on_loaded-WillShow :
      (s : Past R) (gone : ℕ → Bool) (waiting : List (R × R))
      → s.waiting ≡ waiting
      → ((i : ℕ) → gone i ≡ false)
      → WillShow s
      → WillShow (on_loaded s 0 true gone (get_elem? waiting 0))
  on_loaded-WillShow s gone [] e h w = w
  on_loaded-WillShow s gone (x ∷ xs) e h (p, shows, names) =
      let before : WillHold p s.charts (x ∷ xs) = subst (WillHold p s.charts) e shows in
      let after = answer-WillHold p x gone s.charts xs h before in
      (
        p,
        subst (λ ws. WillHold p (fill_charts x gone 0 s.charts) (erase_at ws 0)) (sym e) after,
        names,
      )

  past_step-WillShow :
      (s : Past R) (e : PastEvent R) → IsInOrder (e ∷ []) → WillShow s → WillShow (past_step s e)
  unfolding past_step
  past_step-WillShow s (moved now m gone) (known, o) w =
      load-WillShow now gone (record s { shown = move now s.shown m }) known
  past_step-WillShow s (tick now gone) (known, o) w = elim (Bool-cases (reloads s.shown)) [
    | inl again ↦ rw again (load-WillShow now gone s known)
    | inr stays ↦ rw stays w
  ]
  past_step-WillShow s (answered i ok gone) (first, good, known, o) w =
      rw (first, good) (on_loaded-WillShow s gone s.waiting refl known w)

  past_run-WillShow :
      (s : Past R) (es : List (PastEvent R)) → IsInOrder es → WillShow s → WillShow (past_run s es)
  unfolding past_run
  past_run-WillShow s [] o w = w
  past_run-WillShow s (e ∷ es) o w =
      let (here, later) = IsInOrder-split e es o in
      past_run-WillShow (past_step s e) es later (past_step-WillShow s e here w)
    where
      IsInOrder-split :
          (e : PastEvent R) (es : List (PastEvent R))
          → IsInOrder (e ∷ es)
          → IsInOrder (e ∷ []) × IsInOrder es
      IsInOrder-split (moved now m gone) es (known, o) = ((known, tt), o)
      IsInOrder-split (tick now gone) es (known, o) = ((known, tt), o)
      IsInOrder-split (answered i ok gone) es (first, good, known, o) =
          ((first, good, known, tt), o)

  -- However the user moves through the past and the page reloads: if the sensors of the charts stay
  -- known, every request succeeds and the answers come in the order of the requests, then whenever no
  -- answer is missing each chart is filled with the interval that the range bar names.
  pub past_run-Names :
      (n : ℕ) (now : R) (r : Range R) (es : List (PastEvent R))
      → IsInOrder es
      → (past_run (mounted n now r) es).waiting ≡ []
      → let s = past_run (mounted n now r) es in (p : R × R) × Hold p s.charts × Names s.bar p
  past_run-Names n now r es o idle =
      let s = past_run (mounted n now r) es in
      let (p, shows, names) =
        past_run-WillShow (mounted n now r) es o
          (range now r, refl, render_range_bar-Names now r) in
      (p, subst (WillHold p s.charts) idle shows, names)

  -- Of two moves whose answers come in the other order, the charts are left with the interval of the
  -- first while the range bar names that of the second, although their sensors stay known.
  pub older_answer_shown :
      (s : Past R) (now now' : R) (m m' : Move R) (gone : ℕ → Bool)
      → s.waiting ≡ []
      → ((i : ℕ) → gone i ≡ false)
      → let first = move now s.shown m in
        let second = move now' first m' in
        let s' = past_run s (
          moved now m gone
          ∷ moved now' m' gone
          ∷ answered 1 true gone
          ∷ answered 0 true gone
          ∷ []) in
        Hold (range now first) s'.charts × (s'.waiting ≡ []) × Names s'.bar (range now' second)
  unfolding past_run past_step load
  older_answer_shown s now now' m m' gone idle known =
      let first = move now s.shown m in
      let second = move now' first m' in
      let all_known = some_gone-none gone 0 s.charts known in
      rw (all_known, all_known, idle)
        (
          fill_charts-Hold (range now first) gone 0
              (fill_charts (range now' second) gone 0 s.charts) known,
          refl,
          render_range_bar-Names now' second,
        )
