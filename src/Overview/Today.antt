-- ===== src/Overview/Today.antt =====
-- `loadToday` of web/nasa_web/static/js/views/overview.js: the card of today's energy, from the two
-- counters at midnight and now.
use nasa_cpp.Base.{
  ◌≡◌, refl, inl, inr, false, Option, none, some, [], ◌∷◌, arith, if◌then◌else◌, Bool-cases, ap,
}
use nasa_cpp.Base.Number.{Number, IsRounded, ◌⊖◌, ◌⊘◌, ◌≼◌, ◌≺◌, max_num, min_num}
use nasa_cpp.Views.Energy.{growth, row, NonNeg, growth_nonneg}

pub record Today (R : Type 0) : Type 0 where
  pub used : Option R
  pub made : Option R
  pub cop : Option R
  pub pct : R  -- the part of the ring that is drawn
  pub free : Option R  -- "Free ambient energy today"

module _ {R : Type 0} ⦃num : Number R⦄ where
  -- `used && made != null ? made / used : null`
  abbrev pub cop_today : Option R → Option R → Option R
  cop_today none made = none
  cop_today (some u) none = none
  cop_today (some u) (some m) = if num.same u (num.of_nat 0) then none else some (m ⊘ u)

  -- `cop == null ? 0 : Math.min(1, cop / 6)`
  abbrev pub ring : Option R → R
  ring none = num.of_nat 0
  ring (some c) = min_num (num.of_nat 1) (c ⊘ num.of_nat 6)

  -- `Math.max(0, made - used)`, where both are known
  abbrev pub free_energy : Option R → Option R → Option R
  free_energy (some u) (some m) = some (max_num (num.of_nat 0) (m ⊖ u))
  free_energy _ _ = none

  unfoldable pub today : Option R → Option R → Option R → Option R → Today R
  today i0 i1 o0 o1 =
      let used = growth i0 i1 in
      let made = growth o0 o1 in
      let cop = cop_today used made in
      record { used = used; made = made; cop = cop; pct = ring cop; free = free_energy used made }

  -- No more than `m`, where both are known.
  abbrev pub AtMost : Option R → Option R → Type 0
  AtMost (some x) (some m) = x ≼ m
  AtMost _ _ = Unit

  module _ (laws : IsRounded R) where
    open laws use {ordered, of_nat_mono, of_nat_lt, div_mono, zero_div, sub_anti, sub_zero}
    open ordered use {le_refl, le_trans, le_total, lt-eq-not-le, same-eq-and_le}

    pos_of_nonneg :
        (x : R) → num.of_nat 0 ≼ x → num.same x (num.of_nat 0) ≡ false → num.of_nat 0 ≺ x
    pos_of_nonneg x h k =
        ground (arith, same-eq-and_le x (num.of_nat 0), lt-eq-not-le (num.of_nat 0) x)

    share_nonneg : (m u : R) → num.of_nat 0 ≼ m → num.of_nat 0 ≺ u → num.of_nat 0 ≼ m ⊘ u
    share_nonneg m u h k = let low = div_mono (num.of_nat 0) m u k h in rw (zero_div u k) at low

    cop_today_nonneg : (u m : Option R) → NonNeg u → NonNeg m → NonNeg (cop_today u m)
    cop_today_nonneg none m h k = tt
    cop_today_nonneg (some u) none h k = tt
    cop_today_nonneg (some u) (some m) h k = elim (Bool-cases (num.same u (num.of_nat 0))) [
      | inl idle ↦ rw idle tt
      | inr busy ↦ rw busy (share_nonneg m u k (pos_of_nonneg u h busy))
    ]

    ring_bounds : (c : Option R) → NonNeg c → (num.of_nat 0 ≼ ring c) × (ring c ≼ num.of_nat 1)
    ring_bounds none h = (le_refl (num.of_nat 0), of_nat_mono 0 1 (omega arith))
    ring_bounds (some c) h =
        let six = of_nat_lt 0 6 (omega arith) (omega arith) in
        let part = share_nonneg c (num.of_nat 6) h six in
        ground (
          arith,
          le_refl (num.of_nat 1),
          of_nat_mono 0 1 (omega arith),
          lt-eq-not-le (c ⊘ num.of_nat 6) (num.of_nat 1),
          le_total (c ⊘ num.of_nat 6) (num.of_nat 1),
        )

    free-AtMost : (u m : Option R) → NonNeg u → NonNeg m → AtMost (free_energy u m) m
    free-AtMost none m h k = tt
    free-AtMost (some u) none h k = tt
    free-AtMost (some u) (some m) h k =
        let less = sub_anti m (num.of_nat 0) u h in
        let below : m ⊖ u ≼ m = rw (sub_zero m) at less in ground arith

    -- Whatever the counters read at midnight and now, also where one was reset, no energy and no
    -- coefficient of the card is negative, the ring is drawn between empty and full, and no more
    -- ambient energy is shown than heat was made.
    pub today_bounds :
        (i0 i1 o0 o1 : Option R)
        → let t = today i0 i1 o0 o1 in
          NonNeg t.used
          × NonNeg t.made
          × NonNeg t.cop
          × (num.of_nat 0 ≼ t.pct)
          × (t.pct ≼ num.of_nat 1)
          × AtMost t.free t.made
    unfolding today
    today_bounds i0 i1 o0 o1 =
        let u = growth_nonneg laws i0 i1 in
        let m = growth_nonneg laws o0 o1 in
        let c = cop_today_nonneg (growth i0 i1) (growth o0 o1) u m in
        let (low, high) = ring_bounds (cop_today (growth i0 i1) (growth o0 o1)) c in
        (u, m, c, low, high, free-AtMost (growth i0 i1) (growth o0 o1) u m)

    -- Where the electricity used is known and not zero and the heat made is unknown, the card of today
    -- shows no coefficient of performance, and the page of the energy shows 0 for the same readings.
    pub unknown_heat_differs :
        (i0 i1 o0 o1 : Option R) (u : R)
        → growth i0 i1 ≡ some u
        → num.same u (num.of_nat 0) ≡ false
        → growth o0 o1 ≡ none
        → ((today i0 i1 o0 o1).cop ≡ none)
          × ((row (i0 ∷ i1 ∷ []) (o0 ∷ o1 ∷ []) 0).cop ≡ some (num.of_nat 0))
    unfolding today row
    unknown_heat_differs i0 i1 o0 o1 u used busy unknown =
        let nonneg : NonNeg (growth i0 i1) = growth_nonneg laws i0 i1 in
        let positive = pos_of_nonneg u (rw used at nonneg) busy in
        let zero = zero_div u positive in
        (rw (used, unknown) refl, rw (used, unknown, busy) (ap some zero))
