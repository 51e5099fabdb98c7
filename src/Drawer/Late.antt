-- ===== src/Drawer/Late.antt =====
-- Answers that come late (web/nasa_web/static/js/drawer.js).
use nasa_cpp.Base.{
  erase_at, ℕ, suc, ◌≡◌, refl, ◌∙◌, inl, inr, Bool, true, some, List, [], ◌∷◌, ◌++◌, String, eq_iff,
  Bool-cases, Option-cases, arith, get_elem?,
}
use nasa_cpp.Entity.{Entity, numeric, is_numeric}
use nasa_cpp.Drawer.{
  Request, blank, Drawer, is_current, drawn, on_history, on_answer, Step, opening, answer, step,
  steps,
}

-- What `openEntity` asks for, in a panel.
abbrev pub request : {R : Type 0} → ℕ → Entity R → R → Request R
request panel e range = record {
  id = e.id;
  range = range;
  numeric = is_numeric e.kind;
  panel = panel;
}

-- Answers to calls of `load` that are older than the last one.
abbrev pub older : {R : Type 0} → List (ℕ × Bool) → List (Step R)
older [] = []
older ((i, samples) ∷ is) = answer (suc i) samples ∷ older is

module _ {R : Type 0} where
  steps-append : (d : Drawer R) (ss ts : List (Step R)) → steps d (ss ++ ts) ≡ steps (steps d ss) ts
  unfolding steps
  steps-append d [] ts = refl
  steps-append d (s ∷ ss) ts = steps-append (step d s) ss ts

  -- The panel is open for `id`, and waits for `q`, which it asked for last.
  record Waits (id : String) (panel : ℕ) (q : Request R) (d : Drawer R) : Type 0 where
    open_for : d.current_id ≡ some id
    counted : d.panels ≡ panel
    next : get_elem? d.waiting 0 ≡ some q

  on_history-Waits :
      (id : String) (panel : ℕ) (q : Request R) (d : Drawer R) (o : Request R) (samples : Bool)
      → Waits id panel q d
      → Waits id panel q (on_history d o samples)
  unfolding on_history
  on_history-Waits id panel q d o samples w = elim (Bool-cases (is_current d.current_id o.id)) [
    | inl same ↦
        rw (same, on_history) (record { open_for = w.open_for; counted = w.counted; next = w.next })
    | inr other ↦ rw (other, on_history) w
  ]

  head-erase_at :
      (qs : List (Request R)) (i : ℕ) → get_elem? (erase_at qs (suc i)) 0 ≡ get_elem? qs 0
  head-erase_at [] i = refl
  head-erase_at (q ∷ qs) i = refl

  older-Waits :
      (id : String) (panel : ℕ) (q : Request R) (d : Drawer R) (is : List (ℕ × Bool))
      → Waits id panel q d
      → Waits id panel q (steps d (older is))
  unfolding steps step
  older-Waits id panel q d [] w = w
  older-Waits id panel q d ((i, samples) ∷ is) w =
      older-Waits id panel q (on_answer d (suc i) samples) is
        (elim (Option-cases (get_elem? d.waiting (suc i))) [
          | inl missing ↦ rw (missing, on_answer) w
          | inr (o, found) ↦
              rw (found, on_answer)
                (on_history-Waits id panel q (record d { waiting = erase_at d.waiting (suc i) }) o
                  samples
                  (record {
                    open_for = w.open_for;
                    counted = w.counted;
                    next = head-erase_at d.waiting i ∙ w.next;
                  }))
        ])

  answered :
      (id : String) (q : Request R) (d : Drawer R) (samples : Bool)
      → q.id ≡ id
      → Waits id q.panel q d
      → ((on_answer d 0 samples).stats ≡ some q)
        × ((on_answer d 0 samples).area ≡ drawn q.numeric q samples)
  unfolding on_answer
  answered id q d samples e w = ground (arith, w.open_for, w.counted, w.next, eq_iff id q.id)

  -- After the panel is opened for an entity, whichever answers to older requests come first, the answer
  -- to the last request fills the panel with that request's figures and drawing.
  pub last_request_shown :
      (d : Drawer R) (e : Entity R) (id : String) (range : R) (is : List (ℕ × Bool))
      (samples : Bool)
      → e.id ≡ id
      → let q = request (suc d.panels) e range in
        let d' = steps d ((opening (some e) id range ∷ older is) ++ answer 0 samples ∷ []) in
        (d'.stats ≡ some q) × (d'.area ≡ drawn q.numeric q samples)
  unfolding steps step
  last_request_shown d e id range is samples same =
      let q = request (suc d.panels) e range in
      let opened : Drawer R = step d (opening (some e) id range) in
      let w =
        older-Waits id (suc d.panels) q opened is
          (record { open_for = refl; counted = refl; next = refl }) in
      rw (steps-append d (opening (some e) id range ∷ older is) (answer 0 samples ∷ []))
        (answered id q (steps opened (older is)) samples same w)

  -- Where two ranges of a numeric entity are asked for in turn and the answer to the first comes last,
  -- it takes the chart of the second off the page and leaves the place blank: its own chart goes into
  -- elements that are no longer on the page. The figures stay those of the second range.
  pub late_answer_blanks :
      (d : Drawer R) (e : Entity R) (id : String) (first second : R) (samples : Bool)
      → e.id ≡ id
      → e.kind ≡ numeric
      → let d' = steps d (
          opening (some e) id first
          ∷ opening (some e) id second
          ∷ answer 0 true
          ∷ answer 0 samples
          ∷ []) in
        (d'.area ≡ blank) × (d'.stats ≡ some (request (suc (suc d.panels)) e second))
  unfolding steps step
  late_answer_blanks d e id first second samples same kind = ground (arith, eq_iff id e.id)
