-- ===== src/Controls/Fading.antt =====
-- How the pending markers of web/nasa_web/static/js/controls.js end.
use nasa_cpp.Base.{
  ℕ, ◌<◌, ◌≡◌, ◌≢◌, ◌⊎◌, inl, inr, Bool, none, some, String, lookup, arith, eq_iff, str_eq, ◌==◌,
  lookup-insert, lookup-delete, Option-cases, Bool-cases,
}
use nasa_cpp.Base.Number.{Number}
use nasa_cpp.Entity.{Entity}
use nasa_cpp.Controls.Timers.{lookup_timer, lookup-delete_timer, lookup-cons_timer}
use nasa_cpp.Controls.{
  Pending, Task, send, forget, Panel, cleared, press, fire, reply, has_arrived, confirm_state,
  next_value, pending_value,
}
use nasa_cpp.Controls.Debounce.{lookup-cleared}

module _ {R : Type 0} where
  -- What will take the marker of an entity away: the timer that sends, the answer to its command, or
  -- the timer that forgets the marker.
  abbrev pub Ending : Panel R → String → ℕ → Type 0
  Ending c id t =
      ((v : R) × (lookup_timer t c.timers ≡ some (send id v)))
      ⊎ ((lookup_timer t c.timers ≡ none)
          × ((lookup_timer t c.awaiting ≡ some id)
              ⊎ ((u : ℕ) × (lookup_timer u c.timers ≡ some (forget id t)))))

  pub record IsFading (c : Panel R) : Type 0 where
    pub known : (t : ℕ) (a : Task R) → lookup_timer t c.timers ≡ some a → t < c.next_timer
    pub ends :
        (id : String) (p : Pending R)
        → lookup id c.pending ≡ some p
        → (p.timer < c.next_timer) × Ending c id p.timer

module _ {R : Type 0} ⦃num : Number R⦄ where
  -- A click clears only a timer that would send to the same entity.
  kept_timer :
      (c : Panel R) (e : Entity R) (u : ℕ) (a : Task R)
      → IsFading c
      → lookup_timer u c.timers ≡ some a
      → ((v : R) → a ≢ send e.id v)
      → lookup_timer u (cleared (lookup e.id c.pending) c.timers) ≡ some a
  kept_timer c e u a f at other = elim (Option-cases (lookup e.id c.pending)) [
    | inl gone ↦ ground (arith, lookup-cleared (lookup e.id c.pending) u c.timers)
    | inr (p, shown) ↦ elim (Bool-cases (p.timer == u)) [
      | inr ne ↦ ground (arith, lookup-cleared (lookup e.id c.pending) u c.timers)
      | inl same ↦
          let there : lookup_timer p.timer c.timers ≡ some a = ground arith in
          elim (f.ends e.id p shown).1 [
            | inl (v, sends) ↦ absurd (other v (ground arith))
            | inr (missing, rest) ↦ absurd (ground arith)
          ]
    ]
  ]

  press-Ending :
      (c : Panel R) (e : Entity R) (up : Bool) (id : String) (p : Pending R)
      → IsFading c
      → e.id ≢ id
      → p.timer < c.next_timer
      → Ending c id p.timer
      → Ending (press c e up) id p.timer
  unfolding press
  press-Ending c e up id p f ne lt (inl (v, at)) = inl (
    v,
    ground (
      arith,
      kept_timer c e p.timer (send id v) f at (λ w h. ne (ground arith)),
      lookup-cons_timer c.next_timer p.timer
          (send e.id (next_value (pending_value (lookup e.id c.pending)) e up))
          (cleared (lookup e.id c.pending) c.timers),
    ),
  )
  press-Ending c e up id p f ne lt (inr (missing, rest)) = inr (
    ground (
      arith,
      lookup-cleared (lookup e.id c.pending) p.timer c.timers,
      lookup-cons_timer c.next_timer p.timer
          (send e.id (next_value (pending_value (lookup e.id c.pending)) e up))
          (cleared (lookup e.id c.pending) c.timers),
    ),
    elim rest [
      | inl waits ↦ inl waits
      | inr (u, at) ↦ inr (
        u,
        ground (
          arith,
          f.known u (forget id p.timer) at,
          kept_timer c e u (forget id p.timer) f at (λ w h. cc),
          lookup-cons_timer c.next_timer u
              (send e.id (next_value (pending_value (lookup e.id c.pending)) e up))
              (cleared (lookup e.id c.pending) c.timers),
        ),
      )
    ],
  )

  pub press-IsFading :
      (c : Panel R) (e : Entity R) (up : Bool) → IsFading c → IsFading (press c e up)
  unfolding press
  press-IsFading c e up f =
      let prev = lookup e.id c.pending in
      let v' = next_value (pending_value prev) e up in
      let rest = cleared prev c.timers in
      record {
        known = λ t a h. ground (
          arith,
          lookup-cons_timer c.next_timer t (send e.id v') rest,
          lookup-cleared prev t c.timers,
          f.known t a,
        );
        ends = λ id p h. elim (Bool-cases (str_eq e.id id)) [
          | inl same ↦
              let new : p ≡ record { value = v'; timer = c.next_timer } = ground (
                arith,
                lookup-insert e.id id (record { value = v'; timer = c.next_timer }) c.pending,
              ) in
              let e≡id : e.id ≡ id = ground (arith, eq_iff e.id id) in
              rw new (
                omega arith,
                inl (
                  v',
                  rw e≡id (
                      ground
                        (arith, lookup-cons_timer c.next_timer c.next_timer (send e.id v') rest)),
                ),
              )
          | inr other ↦
              let (lt, ending) = f.ends id p (
                ground (
                  arith,
                  lookup-insert e.id id (record { value = v'; timer = c.next_timer }) c.pending,
                )) in
              (omega arith, press-Ending c e up id p f (ground (arith, eq_iff e.id id)) lt ending)
        ];
      }

  pub fire-IsFading : (c : Panel R) (t : ℕ) → IsFading c → IsFading (fire c t).0
  unfolding fire
  fire-IsFading c t f = elim (Option-cases (lookup_timer t c.timers)) [
    | inl gone ↦ rw (gone, fire) f
    | inr (send id v, found) ↦
        rw (found, fire)
          (record {
            known = λ u a h. ground (arith, lookup-delete_timer t u c.timers, f.known u a);
            ends = λ id' p h.
                let (lt, ending) = f.ends id' p h in
                (
                  lt,
                  elim ending [
                    | inl (w, at) ↦ elim (Bool-cases (t == p.timer)) [
                      | inl same ↦ inr (
                        ground (arith, lookup-delete_timer t p.timer c.timers),
                        inl (ground (arith, lookup-cons_timer t p.timer id c.awaiting)),
                      )
                      | inr other ↦ inl (w, ground (arith, lookup-delete_timer t p.timer c.timers))
                    ]
                    | inr (missing, rest) ↦ inr (
                      ground (arith, lookup-delete_timer t p.timer c.timers),
                      elim rest [
                        | inl waits ↦
                            inl (ground (arith, lookup-cons_timer t p.timer id c.awaiting))
                        | inr (u, at) ↦ inr (u, ground (arith, lookup-delete_timer t u c.timers))
                      ],
                    )
                  ],
                );
          })
    | inr (forget id t', found) ↦
        rw (found, fire)
          (record {
            known = λ u a h. ground (arith, lookup-delete_timer t u c.timers, f.known u a);
            ends = λ id' p h.
                let (lt, ending) = f.ends id' p (ground (arith, lookup-delete id id' c.pending)) in
                (
                  lt,
                  elim ending [
                    | inl (w, at) ↦ inl (w, ground (arith, lookup-delete_timer t p.timer c.timers))
                    | inr (missing, rest) ↦ inr (
                      ground (arith, lookup-delete_timer t p.timer c.timers),
                      elim rest [
                        | inl waits ↦ inl waits
                        | inr (u, at) ↦ inr (
                          u,
                          ground (
                            arith,
                            lookup-delete_timer t u c.timers,
                            lookup-delete id id' c.pending,
                            eq_iff id id',
                          ),
                        )
                      ],
                    )
                  ],
                );
          })
  ]

  pub reply-IsFading : (c : Panel R) (t : ℕ) → IsFading c → IsFading (reply c t)
  unfolding reply
  reply-IsFading c t f = elim (Option-cases (lookup_timer t c.awaiting)) [
    | inl gone ↦ rw (gone, reply) f
    | inr (id, found) ↦
        rw (found, reply)
          (record {
            known = λ u a h.
                ground
                  (arith, lookup-cons_timer c.next_timer u (forget id t) c.timers, f.known u a);
            ends = λ id' p h.
                let (lt, ending) = f.ends id' p h in
                (
                  omega arith,
                  elim ending [
                    | inl (w, at) ↦ inl (
                      w,
                      ground (arith, lookup-cons_timer c.next_timer p.timer (forget id t) c.timers),
                    )
                    | inr (missing, rest) ↦ inr (
                      ground (arith, lookup-cons_timer c.next_timer p.timer (forget id t) c.timers),
                      elim rest [
                        | inl waits ↦ elim (Bool-cases (t == p.timer)) [
                          | inl same ↦ inr (
                            c.next_timer,
                            ground (
                              arith,
                              lookup-cons_timer c.next_timer c.next_timer (forget id t) c.timers,
                            ),
                          )
                          | inr other ↦
                              inl (ground (arith, lookup-delete_timer t p.timer c.awaiting))
                        ]
                        | inr (u, at) ↦ inr (
                          u,
                          ground (
                            arith,
                            f.known u (forget id' p.timer) at,
                            lookup-cons_timer c.next_timer u (forget id t) c.timers,
                          ),
                        )
                      ],
                    )
                  ],
                );
          })
  ]

  pub confirm_state-IsFading :
      (c : Panel R) (e : Entity R) → IsFading c → IsFading (confirm_state c e)
  unfolding confirm_state
  confirm_state-IsFading c e f = elim (Option-cases (lookup e.id c.pending)) [
    | inl gone ↦ rw (gone, confirm_state) f
    | inr (p, shown) ↦ elim (Bool-cases (has_arrived e.value p.value)) [
      | inl here ↦
          rw (shown, here, confirm_state)
            (record {
              known = f.known;
              ends = λ id q h.
                  f.ends id q (ground (arith, lookup-delete e.id id c.pending, eq_iff e.id id));
            })
      | inr not_yet ↦ rw (shown, not_yet, confirm_state) f
    ]
  ]
