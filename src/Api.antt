-- ===== src/Api.antt =====
-- web/nasa_web/static/js/api.js: the paths of the requests to the server, and what a failed one says.
use nasa_cpp.Base.{
  ℕ, ◌≡◌, refl, Bool, true, false, Option, none, some, List, [], ◌∷◌, ◌++◌, String, arith, All, map,
  if◌then◌else◌, ◌==◌, str_eq,
}
use mathlib.Core.List.{append-nil}
use nasa_cpp.Base.Text.{codes}

-- `xs.join(",")`
unfoldable pub comma_joined : List (List ℕ) → List ℕ
comma_joined [] = []
comma_joined (x ∷ []) = x
comma_joined (x ∷ y ∷ xs) = x ++ b',' ∷ comma_joined (y ∷ xs)

-- What a failed request leaves: `res.statusText`, and the `detail` of its body, if that is JSON.
pub record Failure : Type 0 where
  pub status_text : String
  pub detail : Option (Option String)

-- `(await res.json()).detail || detail`, where the body may be no JSON
unfoldable pub error_message : Failure → String
error_message f = elim f.detail [
  | none ↦ f.status_text
  | some none ↦ f.status_text
  | some (some d) ↦ if str_eq d "" then f.status_text else d
]

-- `encode` stands for `encodeURIComponent`, and `show` for the text of a number rounded down.
module _ {R : Type 0} (encode : List ℕ → List ℕ) (show : R → List ℕ) where
  -- `api.history(ids, start, end, points)`
  unfoldable pub history_path : List (List ℕ) → R → R → List ℕ → List ℕ
  unfolding comma_joined
  history_path ids start finish points =
      codes "api/history?ids="
      ++ encode (comma_joined ids)
      ++ codes "&start="
      ++ show start
      ++ codes "&end="
      ++ show finish
      ++ codes "&points="
      ++ points

  -- `api.valuesAt(ids, timestamps)`
  unfoldable pub values_path : List (List ℕ) → List R → List ℕ
  unfolding comma_joined
  values_path ids times =
      codes "api/values_at?ids="
      ++ encode (comma_joined ids)
      ++ codes "&ts="
      ++ comma_joined (map show times)

-- `api.command(id, value)`
unfoldable pub command_path : (List ℕ → List ℕ) → List ℕ → List ℕ
command_path encode id = codes "api/entities/" ++ encode id ++ codes "/command"

-- The parts of a text between the slashes.
abbrev put_first : ℕ → List (List ℕ) → List (List ℕ)
put_first c [] = (c ∷ []) ∷ []
put_first c (p ∷ ps) = (c ∷ p) ∷ ps

abbrev pub segments_of : List ℕ → List (List ℕ)
segments_of [] = [] ∷ []
segments_of (c ∷ s) = let rest = segments_of s in if c == b'/' then [] ∷ rest else put_first c rest

-- No slash, question mark or number sign, and no `&` or `=`.
abbrev pub is_plain : ℕ → Bool
is_plain c =
    if c == b'/'
    then false
    else if c == b'?'
    then false
    else if c == b'#'
    then false
    else if c == b'&'
    then false
    else if c == b'='
    then false
    else true

segments_of-plain :
    (s rest : List ℕ) (p : List ℕ) (ps : List (List ℕ))
    → All (λ c. is_plain c ≡ true) s
    → segments_of rest ≡ p ∷ ps
    → segments_of (s ++ rest) ≡ (s ++ p) ∷ ps
segments_of-plain [] rest p ps h e = e
segments_of-plain (c ∷ s) rest p ps (q, h) e =
    let later = segments_of-plain s rest p ps h e in
    let other : (c == b'/') ≡ false = ground arith in rw (other, later) refl

-- A command goes to the entity that it is for: its path has four parts between the slashes, the third
-- of which is the encoded id, whatever characters the id has, where the encoding leaves none that has a meaning in an address.
pub command_path_lem :
    (encode : List ℕ → List ℕ) (id : List ℕ)
    → All (λ c. is_plain c ≡ true) (encode id)
    → segments_of (command_path encode id)
      ≡ codes "api" ∷ codes "entities" ∷ encode id ∷ codes "command" ∷ []
unfolding command_path
command_path_lem encode id h =
    rw
      (
        segments_of-plain (encode id) (codes "/command") [] (codes "command" ∷ []) h refl,
        append-nil (encode id),
      )
      refl
