-- ===== src/Format/Age.antt =====
-- `ago` of web/nasa_web/static/js/format.js. The number of seconds, minutes, hours or days is kept
-- as a number; its text is `${n}s ago`, `${n} min ago`, `${n} h ago` or `${n} d ago`.
use nasa_cpp.Base.{inl, inr, Bool-cases, Option, none, some, arith, if◌then◌else◌}
use nasa_cpp.Base.Rounding.{floor_range, scaled_low, scaled_high, at_least, at_most}
use nasa_cpp.Base.Number.{Number, IsRounded, ◌⊖◌, ◌⊘◌, ◌≼◌, max_num}

pub data Age (R : Type 0) : Type 0 where
  never just_now : Age R
  seconds minutes hours days : R → Age R

module _ {R : Type 0} ⦃num : Number R⦄ where
  -- the chain of tests, at an age in seconds
  unfoldable pub age_of : R → Age R
  age_of s =
      if num.lt s (num.of_nat 10)
      then just_now
      else if num.lt s (num.of_nat 60)
      then seconds (num.floor s)
      else if num.lt s (num.of_nat 3600)
      then minutes (num.floor (s ⊘ num.of_nat 60))
      else if num.lt s (num.of_nat 86400)
      then hours (num.floor (s ⊘ num.of_nat 3600))
      else days (num.floor (s ⊘ num.of_nat 86400))

  -- `now` is `Date.now() / 1000`.
  unfoldable pub ago : R → Option R → Age R
  unfolding age_of
  ago now none = never
  ago now (some ts) =
      if num.same ts (num.of_nat 0) then never else age_of (max_num (num.of_nat 0) (now ⊖ ts))

  -- The number shown is one that the unit calls for.
  abbrev pub IsReadable : Age R → Type 0
  IsReadable never = Unit
  IsReadable just_now = Unit
  IsReadable (seconds n) = (num.of_nat 10 ≼ n) × (n ≼ num.of_nat 60)
  IsReadable (minutes n) = (num.of_nat 1 ≼ n) × (n ≼ num.of_nat 60)
  IsReadable (hours n) = (num.of_nat 1 ≼ n) × (n ≼ num.of_nat 24)
  IsReadable (days n) = num.of_nat 1 ≼ n

  module _ (laws : IsRounded R) where
    open laws use {le-floor}

    age_of-IsReadable : (s : R) → IsReadable (age_of s)
    unfolding age_of
    age_of-IsReadable s = ground (
      arith,
      at_least laws s 10,
      at_least laws s 60,
      at_least laws s 3600,
      at_least laws s 86400,
      at_most laws s 60,
      at_most laws s 3600,
      at_most laws s 86400,
      scaled_low laws s 1 60 (omega arith) (omega arith) (omega arith),
      scaled_high laws s 60 60 (omega arith) (omega arith) (omega arith),
      scaled_low laws s 1 3600 (omega arith) (omega arith) (omega arith),
      scaled_high laws s 24 3600 (omega arith) (omega arith) (omega arith),
      scaled_low laws s 1 86400 (omega arith) (omega arith) (omega arith),
      floor_range laws s 10 60,
      floor_range laws (s ⊘ num.of_nat 60) 1 60,
      floor_range laws (s ⊘ num.of_nat 3600) 1 24,
      le-floor 1 (s ⊘ num.of_nat 86400),
    )

    -- An age is shown with a number that its unit calls for: from 10 to 60 seconds, 1 to 60 minutes,
    -- 1 to 24 hours, or at least one day.
    ago-IsReadable : (now : R) (ts : Option R) → IsReadable (ago now ts)
    unfolding ago
    ago-IsReadable now none = tt
    ago-IsReadable now (some ts) = elim (Bool-cases (num.same ts (num.of_nat 0))) [
      | inl unset ↦ rw unset tt
      | inr set ↦ rw set (age_of-IsReadable (max_num (num.of_nat 0) (now ⊖ ts)))
    ]
