-- ===== src/Views/Settings/Partition.antt =====
-- In which groups the field settings stand (web/nasa_web/static/js/views/settings.js).
use nasa_cpp.Base.{
  ℕ, ◌+◌, ◌≡◌, Bool, not, ◌||◌, String, List, [], ◌∷◌, if◌then◌else◌, filter, length,
}
use nasa_cpp.Base.Text.{codes}
use nasa_cpp.Format.Escape.{same_text}
use nasa_cpp.Views.Settings.{Group, no_items, has_group, home, first_two}

-- A code begins with two digits.
abbrev pub starts : String → List ℕ → Bool
starts key code = same_text (codes key) (first_two code)

abbrev pub is_other : List ℕ → Bool
is_other code = not (
    starts "10" code
    || starts "20" code
    || starts "30" code
    || starts "40" code
    || starts "50" code)

-- The items of all groups.
unfoldable pub all_items : {A : Type 0} → List (Group A) → ℕ
all_items [] = 0
all_items (g ∷ gs) = length g.items + all_items gs

-- The items of the group with a key.
unfoldable pub items_of : {A : Type 0} → List ℕ → List (Group A) → List A
items_of k [] = []
items_of k (g ∷ gs) = if same_text g.key k then g.items else items_of k gs

-- What each group is to hold, and its key.
abbrev HomesAt : (A : Type 0) → List ℕ → Type 0
HomesAt A t =
    let key = if has_group t (no_items {A = A}) then t else codes "60" in
    let rest = not (
      same_text (codes "10") t
      || same_text (codes "20") t
      || same_text (codes "30") t
      || same_text (codes "40") t
      || same_text (codes "50") t) in
    (same_text key (codes "10") ≡ same_text (codes "10") t)
    × (same_text key (codes "20") ≡ same_text (codes "20") t)
    × (same_text key (codes "30") ≡ same_text (codes "30") t)
    × (same_text key (codes "40") ≡ same_text (codes "40") t)
    × (same_text key (codes "50") ≡ same_text (codes "50") t)
    × (same_text key (codes "60") ≡ rest)

module _ {A : Type 0} where
  -- The items of a list that are at home under a key.
  abbrev pub at_home : (A → List ℕ) → List (Group A) → List ℕ → List A → List A
  at_home code_of gs k xs = filter (λ (x : A). same_text (home (code_of x) gs) k) xs

  -- The field settings whose code begins with the two digits of a key, ...
  abbrev pub starting : String → (A → List ℕ) → List A → List A
  starting key code_of xs = filter (λ (x : A). starts key (code_of x)) xs

  -- ... and those that begin with none of the first five.
  abbrev pub remaining : (A → List ℕ) → List A → List A
  remaining code_of xs = filter (λ (x : A). is_other (code_of x)) xs
