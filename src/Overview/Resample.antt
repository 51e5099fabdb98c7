-- ===== src/Overview/Resample.antt =====
-- `resample` of web/nasa_web/static/js/views/overview.js: a series of samples at even times. The
-- samples from index `j` on stand for `j`.
use nasa_cpp.Base.{
  ℕ, zero, suc, ◌+◌, ◌-◌, ◌^◌, ◌≤◌, ◌≡◌, refl, sym, ◌∙◌, inl, inr, true, false, Option, none, List,
  [], ◌∷◌, arith, if◌then◌else◌, Bool-cases,
}
use nasa_cpp.Base.Number.{Number, IsRounded, ◌⊕◌, ◌⊖◌, ◌⊗◌, ◌⊘◌, ◌≼◌}

module _ {R : Type 0} ⦃num : Number R⦄ where
  -- `while (j + 1 < s.t.length && s.t[j + 1] <= t) j++`
  unfoldable pub advance : R → List (R × Option R) → List (R × Option R)
  advance t [] = []
  advance t (s ∷ []) = s ∷ []
  advance t (s ∷ u ∷ rest) = if num.le u.0 t then advance t (u ∷ rest) else s ∷ u ∷ rest

  -- `s.t[j] <= t ? s.v[j] : null`
  unfoldable pub value_at : R → List (R × Option R) → Option R
  value_at t [] = none
  value_at t (s ∷ rest) = if num.le s.0 t then s.1 else none

  -- The time of round `i`.
  abbrev pub grid_time : R → R → ℕ → ℕ → R
  grid_time start finish n i = start ⊕ (finish ⊖ start) ⊗ num.of_nat i ⊘ num.of_nat (n - 1)

  -- The rounds from `i` on, `k` of them.
  unfoldable pub resample_from : R → R → ℕ → ℕ → ℕ → List (R × Option R) → List (Option R)
  resample_from start finish n zero i samples = []
  resample_from start finish n (suc k) i samples =
      let t = grid_time start finish n i in
      let here = advance t samples in value_at t here ∷ resample_from start finish n k (i + 1) here

  unfoldable pub resample : List (R × Option R) → R → R → ℕ → List (Option R)
  unfolding resample_from advance value_at
  resample samples start finish n = resample_from start finish n n 0 samples

  -- What a series shows at a time: the value of its last sample that is not later.
  unfoldable pub latest : R → Option R → List (R × Option R) → Option R
  latest t found [] = found
  latest t found ((u, v) ∷ rest) = latest t (if num.le u t then v else found) rest

  unfoldable pub latest_from : R → R → ℕ → ℕ → ℕ → List (R × Option R) → List (Option R)
  latest_from start finish n zero i samples = []
  latest_from start finish n (suc k) i samples =
      latest (grid_time start finish n i) none samples
      ∷ latest_from start finish n k (i + 1) samples

  abbrev pub IsSorted : List (R × Option R) → Type 0
  IsSorted [] = Unit
  IsSorted (s ∷ []) = Unit
  IsSorted (s ∷ u ∷ rest) = (s.0 ≼ u.0) × IsSorted (u ∷ rest)

  module _ (laws : IsRounded R) where
    open laws use {
      ordered, add_mono, mul_mono, div_mono, of_nat_mono, of_nat_lt, sub_mono, sub_self, mul_comm,
    }
    open ordered use {le_refl, le_trans, le_total, lt-eq-not-le}

    -- After a sample that is later than `t`, all are.
    latest_late :
        (t : R) (found : Option R) (s : R × Option R) (rest : List (R × Option R))
        → IsSorted (s ∷ rest)
        → num.le s.0 t ≡ false
        → latest t found (s ∷ rest) ≡ found
    unfolding latest
    latest_late t found s [] h late = rw late refl
    latest_late t found s (u ∷ rest) (le, h) late =
        rw late (latest_late t found u rest h (ground (arith, le_trans s.0 u.0 t le)))

    -- The cursor: it loses no later answer, and gives this one.
    advance-latest :
        (t : R) (samples : List (R × Option R))
        → IsSorted samples
        → value_at t (advance t samples) ≡ latest t none samples
    unfolding advance value_at latest
    advance-latest t [] h = refl
    advance-latest t (s ∷ []) h = refl
    advance-latest t (s ∷ u ∷ rest) (le, h) = elim (Bool-cases (num.le u.0 t)) [
      | inl early ↦ rw early (rw early at (advance-latest t (u ∷ rest) h))
      | inr late ↦
          let found : Option R = if num.le s.0 t then s.1 else none in
          let here : value_at t (advance t (s ∷ u ∷ rest)) ≡ found = rw late refl in
          here ∙ sym (latest_late t found u rest h late)
    ]

    advance-IsSorted :
        (t : R) (samples : List (R × Option R)) → IsSorted samples → IsSorted (advance t samples)
    unfolding advance
    advance-IsSorted t [] h = tt
    advance-IsSorted t (s ∷ []) h = tt
    advance-IsSorted t (s ∷ u ∷ rest) (le, h) = elim (Bool-cases (num.le u.0 t)) [
      | inl early ↦ rw early (advance-IsSorted t (u ∷ rest) h)
      | inr late ↦ rw late (le, h)
    ]

    -- Samples that are passed by at `t` change nothing at a later time.
    latest-advance :
        (t t' : R) (samples : List (R × Option R))
        → t ≼ t'
        → latest t' none (advance t samples) ≡ latest t' none samples
    unfolding advance latest
    latest-advance t t' [] k = refl
    latest-advance t t' (s ∷ []) k = refl
    latest-advance t t' (s ∷ u ∷ rest) k = elim (Bool-cases (num.le u.0 t)) [
      | inl early ↦
          let seen : num.le u.0 t' ≡ true = le_trans u.0 t t' early k in
          rw early (latest-advance t t' (u ∷ rest) k ∙ rw seen refl)
      | inr late ↦ rw late refl
    ]

    grid_mono :
        (start finish : R) (n i j : ℕ)
        → start ≼ finish
        → 2 ≤ n
        → n ≤ 2 ^ 53
        → i ≤ j
        → grid_time start finish n i ≼ grid_time start finish n j
    grid_mono start finish n i j h low high le =
        let width = finish ⊖ start in
        let wide = sub_mono start finish start h in
        let wide' : num.of_nat 0 ≼ width = rw (sub_self start) at wide in
        let grows = mul_mono (num.of_nat i) (num.of_nat j) width wide' (of_nat_mono i j le) in
        let grows' : width ⊗ num.of_nat i ≼ width ⊗ num.of_nat j =
          rw (mul_comm width (num.of_nat i), mul_comm width (num.of_nat j)) grows in
        add_mono start (width ⊗ num.of_nat i ⊘ num.of_nat (n - 1))
          (width ⊗ num.of_nat j ⊘ num.of_nat (n - 1))
          (div_mono (width ⊗ num.of_nat i) (width ⊗ num.of_nat j) (num.of_nat (n - 1))
            (of_nat_lt 0 (n - 1) (omega arith) (omega arith)) grows')

    latest_from-advance :
        (start finish : R) (n k i j : ℕ) (samples : List (R × Option R))
        → start ≼ finish
        → 2 ≤ n
        → n ≤ 2 ^ 53
        → i ≤ j
        → latest_from start finish n k j (advance (grid_time start finish n i) samples)
          ≡ latest_from start finish n k j samples
    unfolding latest_from
    latest_from-advance start finish n zero i j samples h low high le = refl
    latest_from-advance start finish n (suc k) i j samples h low high le = cc (
      latest-advance (grid_time start finish n i) (grid_time start finish n j) samples
          (grid_mono start finish n i j h low high le),
      latest_from-advance start finish n k i (j + 1) samples h low high (omega arith),
    )

    resample_from-latest :
        (start finish : R) (n k i : ℕ) (samples : List (R × Option R))
        → start ≼ finish
        → 2 ≤ n
        → n ≤ 2 ^ 53
        → IsSorted samples
        → resample_from start finish n k i samples ≡ latest_from start finish n k i samples
    unfolding resample_from latest_from
    resample_from-latest start finish n zero i samples h low high sorted = refl
    resample_from-latest start finish n (suc k) i samples h low high sorted =
        let t = grid_time start finish n i in
        cc (
          advance-latest t samples sorted,
          resample_from-latest start finish n k (i + 1) (advance t samples) h low high
              (advance-IsSorted t samples sorted),
          latest_from-advance start finish n k i (i + 1) samples h low high (omega arith),
        )

    -- The single pass of `resample` gives at each of its `n` even times what the whole series gives:
    -- the value of the last sample that is not later, and null before the first one. The samples are
    -- in order of time, the range is not reversed, and there are two times or more.
    pub resample_lem :
        (samples : List (R × Option R)) (start finish : R) (n : ℕ)
        → IsSorted samples
        → start ≼ finish
        → 2 ≤ n
        → n ≤ 2 ^ 53
        → resample samples start finish n ≡ latest_from start finish n n 0 samples
    unfolding resample
    resample_lem samples start finish n sorted h low high =
        resample_from-latest start finish n n 0 samples h low high sorted
