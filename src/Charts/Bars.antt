-- ===== src/Charts/Bars.antt =====
-- `barChart` of web/nasa_web/static/js/charts.js: the groups that get a label below them. Widths are
-- whole pixels, as `clientWidth` is.
pub mod Columns
use native.Mathlib.Nat.{
  div-add-mod, mul-div-le, lt-mul-div-succ, mul-le-mul_left, mul-le-mul_right, zero-mod,
}
use nasa_cpp.Base.Int.{le_or_gt}
use nasa_cpp.Base.{
  inl, inr, ℕ, ◌+◌, ◌-◌, ◌*◌, ◌/◌, ◌%◌, ◌≤◌, ◌<◌, ◌≡◌, max, Bool, true, arith, ◌==◌, if◌then◌else◌,
}

-- `Math.max(300, el.clientWidth || 600)`
abbrev pub chart_width : ℕ → ℕ
chart_width client = max 300 (if client == 0 then 600 else client)

-- `width - pad.l - pad.r`
abbrev pub inner_width : ℕ → ℕ
inner_width client = chart_width client - 52 - 4

-- `Math.ceil(a / b)`
abbrev pub ceil_div : ℕ → ℕ → ℕ
ceil_div a b = (a + (b - 1)) / b

-- `labelEvery`, for `n` groups
unfoldable pub label_every : ℕ → ℕ → ℕ
label_every n client = ceil_div n (max 1 (inner_width client / 54))

-- `gi % labelEvery === 0`
unfoldable pub is_labelled : ℕ → ℕ → ℕ → Bool
unfolding label_every
is_labelled n client i = (i % label_every n client) == 0

-- Multiples of `e` that are not the same are `e` or more apart.
multiples_apart : (e i j : ℕ) → i % e ≡ 0 → j % e ≡ 0 → i < j → e ≤ j - i
multiples_apart e i j hi hj lt =
    let below : e * (i / e) ≡ i = omega (arith, div-add-mod i e, hi) in
    let above : e * (j / e) ≡ j = omega (arith, div-add-mod j e, hj) in
    elim (le_or_gt (j / e) (i / e)) [
      | inl le ↦ absurd (omega (arith, below, above, mul-le-mul_left e le))
      | inr gt ↦
          let wide : e * (i / e + 1) ≤ e * (j / e) = mul-le-mul_left e (omega arith) in
          omega (arith, below, above, wide)
    ]

wide_enough : (client : ℕ) → 54 ≤ inner_width client
wide_enough client = ground arith

-- All groups lie within `k` steps.
le-ceil_div-mul : (n k : ℕ) → 0 < k → n ≤ k * ceil_div n k
le-ceil_div-mul n k h = omega (arith, lt-mul-div-succ (n + (k - 1)) h)

-- Under a chart of `n` groups, which share its inner width evenly, two labels have at least 54 pixels
-- from middle to middle (`n` times the distance is at least `n` times 54), and the first group has one.
pub labels_apart :
    (n client i j : ℕ)
    → i < j
    → is_labelled n client i ≡ true
    → is_labelled n client j ≡ true
    → (54 * n ≤ (j - i) * inner_width client) × (is_labelled n client 0 ≡ true)
unfolding is_labelled label_every
labels_apart n client i j lt hi hj =
    let e = label_every n client in
    let k = max 1 (inner_width client / 54) in
    let fits : 54 * k ≤ inner_width client =
      omega (arith, mul-div-le (inner_width client) 54, wide_enough client) in
    let covers = le-ceil_div-mul n k (omega arith) in
    let apart = multiples_apart e i j (ground arith) (ground arith) lt in
    let spread = mul-le-mul_right e fits in
    let stretched = mul-le-mul_right (inner_width client) apart in
    (omega (arith, covers, spread, stretched), ground (arith, zero-mod e))
