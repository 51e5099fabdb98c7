-- ===== src/Views/Settings.antt =====
-- `render` of web/nasa_web/static/js/views/settings.js: the field settings in their groups.
pub mod Items
pub mod Marker
pub mod Partition
use nasa_cpp.Base.{
  ℕ, suc, ◌≡◌, refl, Bool, true, false, not, ◌&&◌, ◌||◌, Option, none, some, List, [], ◌∷◌, ◌++◌,
  String, leb, ◌==◌, if◌then◌else◌, filter, is_null, or_else,
}
use nasa_cpp.Base.Text.{codes}
use nasa_cpp.Format.Escape.{same_text}

-- The characters that `\s` stands for.
abbrev pub is_space : ℕ → Bool
is_space c =
    leb 9 c && leb c 13
    || c == 32
    || c == 0xa0
    || c == 0x1680
    || leb 0x2000 c && leb c 0x200a
    || c == 0x2028
    || c == 0x2029
    || c == 0x202f
    || c == 0x205f
    || c == 0x3000
    || c == 0xfeff

abbrev pub is_digit : ℕ → Bool
is_digit c = leb b'0' c && leb c b'9'

unfoldable pub skip_spaces : List ℕ → List ℕ
skip_spaces [] = []
skip_spaces (c ∷ s) = let rest = skip_spaces s in if is_space c then rest else c ∷ s

unfoldable pub take_digits : List ℕ → List ℕ
take_digits [] = []
take_digits (c ∷ s) = let rest = c ∷ take_digits s in if is_digit c then rest else []

-- What is left of a text behind a prefix.
unfoldable pub strip : List ℕ → List ℕ → Option (List ℕ)
strip [] s = some s
strip (p ∷ ps) [] = none
strip (p ∷ ps) (c ∷ s) = let rest = strip ps s in if p == c then rest else none

-- A match of `/FSV\s*(\d+)/` at the beginning: the digits, `[]` if there is none.
unfoldable pub code_here : List ℕ → List ℕ
unfolding strip skip_spaces take_digits
code_here s = elim (strip (codes "FSV") s) [
  | none ↦ []
  | some rest ↦ take_digits (skip_spaces rest)
]

-- `(e.name.match(/FSV\s*(\d+)/) || [])[1] || ""`: the first match
unfoldable pub fsv_code : List ℕ → List ℕ
unfolding code_here
fsv_code [] = []
fsv_code (c ∷ s) =
    let later = fsv_code s in elim (code_here (c ∷ s)) [ [] ↦ later | d ∷ ds ↦ d ∷ ds ]

-- `code.slice(0, 2)`
abbrev pub first_two : List ℕ → List ℕ
first_two [] = []
first_two (a ∷ []) = a ∷ []
first_two (a ∷ b ∷ s) = a ∷ b ∷ []

pub record Group (A : Type 0) : Type 0 where
  pub key : List ℕ
  pub label : String
  pub items : List A

module _ {A : Type 0} where
  -- `GROUPS`, with no items yet
  abbrev pub group_of : String → String → Group A
  group_of key label = record { key = codes key; label = label; items = [] }

  unfoldable pub no_items : List (Group A)
  no_items =
      group_of "10" "Temperature limits"
      ∷ group_of "20" "Water law & heating"
      ∷ group_of "30" "Domestic hot water"
      ∷ group_of "40" "Heating system"
      ∷ group_of "50" "Other functions"
      ∷ group_of "60" "Miscellaneous"
      ∷ []

  unfoldable pub has_group : List ℕ → List (Group A) → Bool
  has_group key [] = false
  has_group key (g ∷ gs) = same_text g.key key || has_group key gs

  -- `groups.get(key).items.push(x)`
  unfoldable pub push_item : List ℕ → A → List (Group A) → List (Group A)
  push_item key x [] = []
  push_item key x (g ∷ gs) =
      let rest = g ∷ push_item key x gs in
      if same_text g.key key then record g { items = g.items ++ x ∷ [] } ∷ gs else rest

  -- `groups.get(code.slice(0, 2)) || groups.get("60")`
  abbrev pub home : List ℕ → List (Group A) → List ℕ
  home code groups = if has_group (first_two code) groups then first_two code else codes "60"

  -- the loop over the field settings; `code_of` gives the code of an item
  unfoldable pub place_items : (A → List ℕ) → List (Group A) → List A → List (Group A)
  place_items code_of groups [] = groups
  place_items code_of groups (x ∷ xs) =
      place_items code_of (push_item (home (code_of x) groups) x groups) xs

  -- `groups.values().filter((g) => g.items.length)`
  abbrev pub is_shown : Group A → Bool
  is_shown g = elim g.items [ [] ↦ false | x ∷ xs ↦ true ]

  unfoldable pub settings_groups : (A → List ℕ) → List A → List (Group A)
  unfolding place_items no_items has_group push_item
  settings_groups code_of fsv = filter is_shown (place_items code_of no_items fsv)
