-- ===== src/Controls/Debounce.antt =====
-- The timers that will send, over several clicks on a stepper (web/nasa_web/static/js/controls.js).
use nasa_cpp.Base.{
  ℕ, ◌<◌, ◌≡◌, refl, inl, inr, Bool, Option, none, some, List, String, lookup, arith, eq_iff,
  if◌then◌else◌, ◌==◌, lookup-insert, lookup-delete, Option-cases,
}
use nasa_cpp.Base.Number.{Number}
use nasa_cpp.Entity.{Entity}
use nasa_cpp.Controls.Timers.{lookup_timer, lookup-delete_timer, lookup-cons_timer}
use nasa_cpp.Controls.{
  Pending, Task, send, forget, Panel, cleared, press, fire, reply, next_value, pending_value,
}

module _ {R : Type 0} ⦃num : Number R⦄ where
  pub record IsDebounced (c : Panel R) : Type 0 where
    -- A timer that will send is the pending one of its entity, with the value that is shown.
    pub sends :
        (t : ℕ) (id : String) (v : R)
        → lookup_timer t c.timers ≡ some (send id v)
        → (t < c.next_timer) × (lookup id c.pending ≡ some (record { value = v; timer = t }))
    -- One that will forget belongs to a timer that has run, ...
    pub forgets :
        (t : ℕ) (id : String) (u : ℕ)
        → lookup_timer t c.timers ≡ some (forget id u)
        → (t < c.next_timer) × (u < c.next_timer) × (lookup_timer u c.timers ≡ none)
    -- ... and so does a command that waits for its reply.
    pub replies :
        (t : ℕ) (id : String)
        → lookup_timer t c.awaiting ≡ some id
        → (t < c.next_timer) × (lookup_timer t c.timers ≡ none)
    pub markers :
        (id : String) (p : Pending R) → lookup id c.pending ≡ some p → p.timer < c.next_timer

  pub lookup-cleared :
      (prev : Option (Pending R)) (u : ℕ) (ts : List (ℕ × Task R))
      → lookup_timer u (cleared prev ts) ≡ elim prev [
        | none ↦ lookup_timer u ts
        | some p ↦ if p.timer == u then none else lookup_timer u ts
      ]
  lookup-cleared none u ts = refl
  lookup-cleared (some p) u ts = lookup-delete_timer p.timer u ts

  module _ (c : Panel R) (d : IsDebounced c) where
    pub press-IsDebounced : (e : Entity R) (up : Bool) → IsDebounced (press c e up)
    unfolding press
    press-IsDebounced e up =
        let prev = lookup e.id c.pending in
        let v' = next_value (pending_value prev) e up in
        let rest = cleared prev c.timers in
        record {
          sends = λ t id v h. ground (
            arith,
            lookup-cons_timer c.next_timer t (send e.id v') rest,
            lookup-cleared prev t c.timers,
            lookup-insert e.id id (record { value = v'; timer = c.next_timer }) c.pending,
            eq_iff e.id id,
            d.sends t id v,
          );
          forgets = λ t id u h. ground (
            arith,
            lookup-cons_timer c.next_timer t (send e.id v') rest,
            lookup-cons_timer c.next_timer u (send e.id v') rest,
            lookup-cleared prev t c.timers,
            lookup-cleared prev u c.timers,
            d.forgets t id u,
          );
          replies = λ t id h. ground (
            arith,
            lookup-cons_timer c.next_timer t (send e.id v') rest,
            lookup-cleared prev t c.timers,
            d.replies t id,
          );
          markers = λ id p h. ground (
            arith,
            lookup-insert e.id id (record { value = v'; timer = c.next_timer }) c.pending,
            d.markers id p,
          );
        }

    pub fire-IsDebounced : (t : ℕ) → IsDebounced (fire c t).0
    unfolding fire
    fire-IsDebounced t = elim (Option-cases (lookup_timer t c.timers)) [
      | inl gone ↦ rw (gone, fire) d
      | inr (send id v, found) ↦
          rw (found, fire)
            (record {
              sends = λ t' id' v' h.
                  ground (arith, lookup-delete_timer t t' c.timers, d.sends t' id' v');
              forgets = λ t' id' u h. ground (
                arith,
                lookup-delete_timer t t' c.timers,
                lookup-delete_timer t u c.timers,
                d.forgets t' id' u,
              );
              replies = λ t' id' h. ground (
                arith,
                d.sends t id v found,
                lookup-cons_timer t t' id c.awaiting,
                lookup-delete_timer t t' c.timers,
                d.replies t' id',
              );
              markers = d.markers;
            })
      | inr (forget id u, found) ↦
          rw (found, fire)
            (record {
              sends = λ t' id' v' h. ground (
                arith,
                lookup-delete_timer t t' c.timers,
                lookup-delete id id' c.pending,
                eq_iff id id',
                d.forgets t id u found,
                d.sends t' id' v',
              );
              forgets = λ t' id' u' h. ground (
                arith,
                lookup-delete_timer t t' c.timers,
                lookup-delete_timer t u' c.timers,
                d.forgets t' id' u',
              );
              replies =
                  λ t' id' h. ground (arith, lookup-delete_timer t t' c.timers, d.replies t' id');
              markers = λ id' p h. ground (arith, lookup-delete id id' c.pending, d.markers id' p);
            })
    ]

    pub reply-IsDebounced : (t : ℕ) → IsDebounced (reply c t)
    unfolding reply
    reply-IsDebounced t = elim (Option-cases (lookup_timer t c.awaiting)) [
      | inl gone ↦ rw (gone, reply) d
      | inr (id, found) ↦
          rw (found, reply)
            (record {
              sends = λ t' id' v h. ground (
                arith,
                lookup-cons_timer c.next_timer t' (forget id t) c.timers,
                d.sends t' id' v,
              );
              forgets = λ t' id' u h. ground (
                arith,
                lookup-cons_timer c.next_timer t' (forget id t) c.timers,
                lookup-cons_timer c.next_timer u (forget id t) c.timers,
                d.replies t id found,
                d.forgets t' id' u,
              );
              replies = λ t' id' h. ground (
                arith,
                lookup-delete_timer t t' c.awaiting,
                lookup-cons_timer c.next_timer t' (forget id t) c.timers,
                d.replies t' id',
              );
              markers = λ id' p h. ground (arith, d.markers id' p);
            })
    ]

  -- Two timers that will send to one entity are the same timer, with the same value.
  pub one_command :
      (c : Panel R) (t t' : ℕ) (id : String) (v v' : R)
      → IsDebounced c
      → lookup_timer t c.timers ≡ some (send id v)
      → lookup_timer t' c.timers ≡ some (send id v')
      → (t ≡ t') × (v ≡ v')
  one_command c t t' id v v' d h k = ground (arith, d.sends t id v h, d.sends t' id v' k)
