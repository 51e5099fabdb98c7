-- ===== src/Base/Collation.antt =====
-- `localeCompare` and the chains `compare(…) || compare(…)` that sort a table.
use mathlib.Core.Path.{◌≡◌}
use mathlib.Core.Bool.{Bool, true, false}
use native.Mathlib.Omega.{arith}

-- The sign of what a comparison returns.
pub data Sign : Type 0 where
  negative zero positive : Sign

abbrev pub turned : Sign → Sign
turned negative = positive
turned zero = zero
turned positive = negative

-- `s || t`
abbrev pub or_then : Sign → Sign → Sign
or_then zero t = t
or_then s t = s

abbrev pub not_after : Sign → Bool
not_after positive = false
not_after _ = true

-- What a comparison has to meet for `sort` to be defined.
pub record IsCollation {A : Type 0} (compare : A → A → Sign) : Type 0 where
  pub flip : (x y : A) → compare y x ≡ turned (compare x y)
  pub trans :
      (x y z : A)
      → not_after (compare x y) ≡ true
      → not_after (compare y z) ≡ true
      → not_after (compare x z) ≡ true

-- Comparing by one thing and then by another meets it again.
module _ {A B : Type 0} (key : A → B) (other : A → B) (one two : B → B → Sign) where
  abbrev pub by_both : A → A → Sign
  by_both x y = or_then (one (key x) (key y)) (two (other x) (other y))

  pub by_both-IsCollation : IsCollation one → IsCollation two → IsCollation by_both
  by_both-IsCollation c d = record {
    flip = λ x y. ground (arith, c.flip (key x) (key y), d.flip (other x) (other y));
    trans = λ x y z h k. ground (
      arith,
      c.flip (key x) (key y),
      c.flip (key y) (key z),
      c.flip (key x) (key z),
      c.trans (key x) (key y) (key z),
      c.trans (key z) (key x) (key y),
      c.trans (key y) (key z) (key x),
      d.trans (other x) (other y) (other z),
    );
  }
