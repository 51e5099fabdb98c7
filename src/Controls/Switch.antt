-- ===== src/Controls/Switch.antt =====
-- The listener of the switches in web/nasa_web/static/js/controls.js, for one box that is not drawn
-- again in between.
use nasa_cpp.Base.{
  erase_at, ℕ, String, ◌%◌, ◌==◌, false, Option, zero, suc, ◌+◌, ◌<◌, ◌≡◌, refl, ap, ◌∙◌, Bool,
  true, not, none, some, List, [], ◌∷◌, ◌++◌, arith, length, length-append, get_elem?,
  if◌then◌else◌,
}

pub record Switch : Type 0 where
  pub checked : Bool  -- `input.checked`
  pub waiting : List String  -- `await send(e, …)`: the commands without an answer

pub data SwitchEvent : Type 0 where
  change : Bool → SwitchEvent  -- a click of the user; whether the store holds the entity
  result : ℕ → Bool → SwitchEvent  -- the answer to a waiting command; what `send` returns

-- The browser turns the box before it calls the listener.
unfoldable pub on_change : Switch → Bool → Switch
on_change s known =
    let now = not s.checked in
    record {
      checked = now;
      waiting = if known then s.waiting ++ (if now then "ON" else "OFF") ∷ [] else s.waiting;
    }

-- `if (!ok) input.checked = !input.checked`
unfoldable pub on_result : Switch → ℕ → Bool → Switch
on_result s i ok = elim (get_elem? s.waiting i) [
  | none ↦ s
  | some v ↦ record {
    checked = if ok then s.checked else not s.checked;
    waiting = erase_at s.waiting i;
  }
]

unfoldable pub switch_step : Switch → SwitchEvent → Switch
unfolding on_change on_result
switch_step s (change known) = on_change s known
switch_step s (result i ok) = on_result s i ok

unfoldable pub switch_run : Switch → List SwitchEvent → Switch
switch_run s [] = s
switch_run s (e ∷ es) = switch_run (switch_step s e) es

-- Clicks in a row, ...
abbrev pub clicks : ℕ → List SwitchEvent
clicks zero = []
clicks (suc k) = change true ∷ clicks k

-- ... and answers.
abbrev pub results : List (ℕ × Bool) → List SwitchEvent
results [] = []
results ((i, ok) ∷ rs) = result i ok ∷ results rs

-- Answers to each of `n` waiting commands.
abbrev pub Answers : ℕ → List (ℕ × Bool) → Type 0
Answers zero [] = Unit
Answers (suc n) ((i, ok) ∷ rs) = (i < suc n) × Answers n rs
Answers _ _ = ⊥

abbrev pub failures : List (ℕ × Bool) → ℕ
failures [] = 0
failures ((i, ok) ∷ rs) = if ok then failures rs else suc (failures rs)

abbrev pub last_command : List String → Option String
last_command [] = none
last_command (c ∷ []) = some c
last_command (c ∷ d ∷ cs) = last_command (d ∷ cs)

-- The box shows what a command says.
abbrev pub Shows : Bool → Option String → Type 0
Shows true command = command ≡ some "ON"
Shows false command = command ≡ some "OFF"

-- A box turned as often as a command failed, ...
abbrev turned : List (ℕ × Bool) → Bool → Bool
turned [] b = b
turned ((i, ok) ∷ rs) b = turned rs (if ok then b else not b)

-- ... and turned once more if that is an odd number.
turned_back :
    (rs : List (ℕ × Bool)) (b : Bool)
    → (if failures rs % 2 == 0 then turned rs b else not (turned rs b)) ≡ b
turned_back [] b = refl
turned_back ((i, true) ∷ rs) b = turned_back rs b
turned_back ((i, false) ∷ rs) b = ground (arith, turned_back rs (not b))

length-erase_at :
    (vs : List String) (i n : ℕ) → length vs ≡ suc n → i < suc n → length (erase_at vs i) ≡ n
length-erase_at [] i n h l = omega arith
length-erase_at (v ∷ vs) zero n h l = omega arith
length-erase_at (v ∷ vs) (suc i) zero h l = omega arith
length-erase_at (v ∷ vs) (suc i) (suc n) h l =
    omega (arith, length-erase_at vs i n (omega arith) (omega arith))

get_elem?-some :
    (vs : List String) (i : ℕ) → i < length vs → (v : String) × (get_elem? vs i ≡ some v)
get_elem?-some [] i h = elim h [ ]
get_elem?-some (v ∷ vs) zero h = (v, refl)
get_elem?-some (v ∷ vs) (suc i) h = get_elem?-some vs i (omega arith)

length-nil : (vs : List String) → length vs ≡ 0 → vs ≡ []
length-nil [] h = refl
length-nil (v ∷ vs) h = ground arith

results_lem :
    (s : Switch) (n : ℕ) (rs : List (ℕ × Bool))
    → length s.waiting ≡ n
    → Answers n rs
    → let s' = switch_run s (results rs) in (s'.checked ≡ turned rs s.checked) × (s'.waiting ≡ [])
unfolding switch_run switch_step
results_lem s zero [] h a = (refl, length-nil s.waiting h)
results_lem s zero (r ∷ rs) h a = absurd a
results_lem s (suc n) [] h a = absurd a
results_lem s (suc n) ((i, ok) ∷ rs) h (l, a) =
    let (v, found) = get_elem?-some s.waiting i (omega arith) in
    let shown : (on_result s i ok).checked ≡ (if ok then s.checked else not s.checked) =
      rw (on_result, found) refl in
    let left : (on_result s i ok).waiting ≡ erase_at s.waiting i = rw (on_result, found) refl in
    let fewer = ap length left ∙ length-erase_at s.waiting i n h l in
    let (after, done) = results_lem (on_result s i ok) n rs fewer a in
    (after ∙ ap (turned rs) shown, done)

last_command-snoc : (cs : List String) (c : String) → last_command (cs ++ c ∷ []) ≡ some c
last_command-snoc [] c = refl
last_command-snoc (d ∷ []) c = refl
last_command-snoc (d ∷ e ∷ cs) c = last_command-snoc (e ∷ cs) c

on_change-Shows : (s : Switch) → Shows (not s.checked) (last_command (on_change s true).waiting)
unfolding on_change
on_change-Shows s = shows (not s.checked)
  where
    shows : (b : Bool) → Shows b (last_command (s.waiting ++ (if b then "ON" else "OFF") ∷ []))
    shows true = last_command-snoc s.waiting "ON"
    shows false = last_command-snoc s.waiting "OFF"

-- After clicks, the box shows the last command.
clicks-Shows :
    (s : Switch) (k : ℕ)
    → let s' = switch_run s (clicks (suc k)) in
      Shows s'.checked (last_command s'.waiting) × (length s'.waiting ≡ suc (length s.waiting + k))
unfolding switch_run switch_step on_change
clicks-Shows s zero = (
  on_change-Shows s,
  omega (arith, length-append s.waiting ((if not s.checked then "ON" else "OFF") ∷ [])),
)
clicks-Shows s (suc k) =
    let (shown, counted) = clicks-Shows (on_change s true) k in
    (
      shown,
      omega
          (arith, counted, length-append s.waiting ((if not s.checked then "ON" else "OFF") ∷ [])),
    )

-- After one click or more on a switch, whose commands are then answered in whatever order: if the number
-- of commands that failed is even, the switch shows what the last command said, and if it is odd, the
-- opposite.
pub switch_answered :
    (s : Switch) (k : ℕ) (rs : List (ℕ × Bool))
    → s.waiting ≡ []
    → Answers (suc k) rs
    → let asked = switch_run s (clicks (suc k)) in
      let s' = switch_run asked (results rs) in
      Shows
        (if failures rs % 2 == 0 then s'.checked else not s'.checked)
        (last_command asked.waiting)
      × (s'.waiting ≡ [])
switch_answered s k rs idle a =
    let asked = switch_run s (clicks (suc k)) in
    let (shown, counted) = clicks-Shows s k in
    let none_yet : length s.waiting ≡ 0 = ap length idle in
    let (after, done) = results_lem asked (suc k) rs (omega (arith, counted)) a in
    let back : (if failures rs % 2 == 0
          then (switch_run asked (results rs)).checked
          else not (switch_run asked (results rs)).checked)
        ≡ asked.checked =
      rw after (turned_back rs asked.checked) in
    (rw back shown, done)
