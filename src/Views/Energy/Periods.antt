-- ===== src/Views/Energy/Periods.antt =====
-- `boundaries` of web/nasa_web/static/js/views/energy.js: where the periods of the page begin.
use nasa_cpp.Base.{ℕ, zero, suc, ◌-◌, ◌≡◌, refl, ap, List, [], ◌∷◌}

pub data Mode : Type 0 where
  d7 d30 m12 : Mode

-- The methods of `Date` that the page uses, on dates in local time.
pub record Calendar (D : Type 0) : Type 0 where
  pub midnight : D → D  -- d.setHours(0, 0, 0, 0)
  pub first_day : D → D  -- d.setDate(1)
  pub days_back : ℕ → D → D  -- d.setDate(d.getDate() - n)
  pub months_back : ℕ → D → D  -- d.setMonth(d.getMonth() - n)
  pub next_day : D → D  -- d.setDate(d.getDate() + 1)
  pub next_month : D → D  -- d.setMonth(d.getMonth() + 1)

-- What the page relies on: steps of whole days lead from one midnight to another, and on the first
-- of a month steps of whole months to the first of another.
pub record IsCalendar {D : Type 0} (cal : Calendar D) : Type 0 where
  pub no_days : (d : D) → cal.days_back 0 d ≡ d
  pub day_after : (n : ℕ) (d : D) → cal.next_day (cal.days_back (suc n) d) ≡ cal.days_back n d
  pub no_months : (d : D) → cal.months_back 0 (cal.first_day d) ≡ cal.first_day d
  pub month_after :
      (n : ℕ) (d : D)
      → cal.next_month (cal.months_back (suc n) (cal.first_day d))
        ≡ cal.months_back n (cal.first_day d)

-- `days`, or the number of months
abbrev pub days_of : Mode → ℕ
days_of d7 = 7
days_of d30 = 30
days_of m12 = 12

module _ {D : Type 0} where
  -- `for (…) { out.push(new Date(d)); … }`
  unfoldable pub pushed : (D → D) → D → ℕ → List D
  pushed step d zero = []
  pushed step d (suc n) = d ∷ pushed step (step d) n

  -- The same dates, each by its distance from the last one.
  abbrev pub counted_down : (ℕ → D) → ℕ → List D
  counted_down back zero = []
  counted_down back (suc n) = back n ∷ counted_down back n

  module _ (cal : Calendar D) where
    -- `boundaries()`, where `now` is `new Date()`
    unfoldable pub boundaries : Mode → D → List D
    unfolding pushed
    boundaries m12 now =
        pushed cal.next_month (cal.months_back 11 (cal.first_day (cal.midnight now))) 12
    boundaries mode now =
        let days = days_of mode in
        pushed cal.next_day (cal.days_back (days - 1) (cal.midnight now)) days

    -- The last period of the page: today, or this month.
    unfoldable pub last_start : Mode → D → D
    last_start m12 now = cal.first_day (cal.midnight now)
    last_start mode now = cal.midnight now

    abbrev pub back_from : Mode → D → ℕ → D
    back_from m12 now n = cal.months_back n (last_start m12 now)
    back_from mode now n = cal.days_back n (last_start mode now)

    pushed-counted_down :
        (step : D → D) (back : ℕ → D) (n : ℕ)
        → ((k : ℕ) → step (back (suc k)) ≡ back k)
        → pushed step (back n) (suc n) ≡ counted_down back (suc n)
    unfolding pushed
    pushed-counted_down step back zero h = refl
    pushed-counted_down step back (suc n) h =
        ap (λ ds. back (suc n) ∷ ds) (rw (h n) (pushed-counted_down step back n h))

    -- The page has 7 or 30 periods of a day, or 12 of a month. Each begins a day or a month after the one
    -- before, at midnight, and the last one is today, or the present month.
    pub boundaries_lem :
        (mode : Mode) (now : D)
        → IsCalendar cal
        → (boundaries mode now ≡ counted_down (back_from mode now) (days_of mode))
          × (back_from mode now 0 ≡ last_start mode now)
    unfolding boundaries last_start
    boundaries_lem d7 now laws = (
      pushed-counted_down cal.next_day (λ n. cal.days_back n (cal.midnight now)) 6
          (λ k. laws.day_after k (cal.midnight now)),
      laws.no_days (cal.midnight now),
    )
    boundaries_lem d30 now laws = (
      pushed-counted_down cal.next_day (λ n. cal.days_back n (cal.midnight now)) 29
          (λ k. laws.day_after k (cal.midnight now)),
      laws.no_days (cal.midnight now),
    )
    boundaries_lem m12 now laws = (
      pushed-counted_down cal.next_month (λ n. cal.months_back n (cal.first_day (cal.midnight now)))
          11 (λ k. laws.month_after k (cal.midnight now)),
      laws.no_months (cal.midnight now),
    )
