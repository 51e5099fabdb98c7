-- ===== src/Overview/Pills.antt =====
-- `renderPills` of web/nasa_web/static/js/views/overview.js.
use nasa_cpp.Base.{Bool, Option, none, some, List, [], ◌∷◌, ◌++◌, String, str_eq, if◌then◌else◌}
use nasa_cpp.Base.Number.{Number}
use nasa_cpp.Store.{Store, val, text}
use nasa_cpp.Store.Names

pub data Pill (R : Type 0) : Type 0 where
  error : R → Pill R
  no_errors : Pill R
  operation : String → Bool → Pill R  -- label, marked as heating
  mode : String → Pill R
  defrost : String → Pill R
  backup : String → Pill R
  booster : Pill R

-- `OP[op] || op`
abbrev op_label : String → String
op_label op =
    if str_eq op "OP_STOP"
    then "Standby"
    else if str_eq op "OP_NORMAL"
    then "Running"
    else if str_eq op "OP_SAFETY"
    then "Safety"
    else if str_eq op "OP_BALANCE"
    then "Balancing"
    else if str_eq op "OP_RECOVERY"
    then "Recovery"
    else op

-- A text that is missing or empty is false.
abbrev present : Option String → Option String
present none = none
present (some t) = if str_eq t "" then none else some t

module _ {R : Type 0} ⦃num : Number R⦄ where
  abbrev when_present : Option String → (String → List (Pill R)) → List (Pill R)
  when_present t f = elim (present t) [ none ↦ [] | some s ↦ f s ]

  abbrev pub error_pill : Option R → List (Pill R)
  error_pill none = []
  error_pill (some code) = if num.lt (num.of_nat 0) code then error code ∷ [] else no_errors ∷ []

  -- `no_def` stands for the test of a text for `NO_DEF`.
  module _ (lower : String → String) (show : R → String) (no_def : String → Bool) where
    unfoldable pub other_pills : Store R → List (Pill R)
    other_pills s =
        when_present (text lower show s Names.op_mode)
          (λ op. operation (op_label op) (str_eq op "OP_NORMAL") ∷ [])
        ++ when_present (text lower show s Names.mode) (λ m. mode m ∷ [])
        ++ when_present (text lower show s Names.defrost)
            (λ d. if no_def d then [] else defrost d ∷ [])
        ++ when_present (text lower show s Names.backup)
            (λ b. if str_eq b "OFF" then [] else backup b ∷ [])
        ++ when_present (text lower show s Names.booster)
            (λ b. if str_eq b "OFF" then [] else booster ∷ [])

    unfoldable pub pills : Store R → List (Pill R)
    pills s = error_pill (val lower s Names.error) ++ other_pills s
