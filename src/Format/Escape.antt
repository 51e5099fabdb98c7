-- ===== src/Format/Escape.antt =====
-- `esc` of web/nasa_web/static/js/format.js, on texts as lists of code points.
use nasa_cpp.Base.{
  ℕ, ◌≡◌, refl, ap, ◌∙◌, ◌≢◌, ◌&&◌, ◌||◌, Bool, true, false, Option, none, some, List, [], ◌∷◌,
  ◌++◌, arith, All, All-append, if◌then◌else◌, ◌==◌, or_else,
}
use nasa_cpp.Base.Text.{codes}

-- The function that `replace` is given, and a character that it leaves alone.
unfoldable pub esc_char : ℕ → List ℕ
esc_char c =
    if c == b'&'
    then codes "&amp;"
    else if c == b'<'
    then codes "&lt;"
    else if c == b'>'
    then codes "&gt;"
    else if c == 34
    then codes "&quot;"
    else if c == 39
    then codes "&#39;"
    else c ∷ []

pub esc_all : List ℕ → List ℕ
unfolding esc_char
esc_all [] = []
esc_all (c ∷ s) = esc_char c ++ esc_all s

unfoldable pub esc : Option (List ℕ) → List ℕ
unfolding esc_all
esc s = esc_all (or_else s [])

-- What a browser reads: a reference runs from `&` to the next `;`.
abbrev pub same_text : List ℕ → List ℕ → Bool
same_text [] [] = true
same_text (a ∷ s) (b ∷ t) = a == b && same_text s t
same_text _ _ = false

abbrev pub reference : List ℕ → List ℕ
reference name =
    if same_text name (codes "amp")
    then b'&' ∷ []
    else if same_text name (codes "lt")
    then b'<' ∷ []
    else if same_text name (codes "gt")
    then b'>' ∷ []
    else if same_text name (codes "quot")
    then 34 ∷ []
    else if same_text name (codes "#39")
    then 39 ∷ []
    else b'&' ∷ name ++ b';' ∷ []

-- What may begin or end a tag, or end an attribute.
abbrev is_markup : ℕ → Bool
is_markup c = c == b'<' || c == b'>' || c == 34 || c == 39

abbrev pub before : List ℕ → Option (List ℕ) → Option (List ℕ)
before s none = none
before s (some t) = some (s ++ t)

-- The text that a browser reads, `none` if it may see markup or the end of an attribute in it.
pub decode : Option (List ℕ) → List ℕ → Option (List ℕ)
decode none [] = some []
decode (some name) [] = some (b'&' ∷ name)
decode none (c ∷ s) =
    let started = decode (some []) s in
    let plain = before (c ∷ []) (decode none s) in
    if c == b'&' then started else if is_markup c then none else plain
decode (some name) (c ∷ s) =
    let closed = before (reference name) (decode none s) in
    let longer = decode (some (name ++ c ∷ [])) s in if c == b';' then closed else longer

decode-esc_char :
    (c : ℕ) (rest : List ℕ) → decode none (esc_char c ++ rest) ≡ before (c ∷ []) (decode none rest)
unfolding decode esc_char
decode-esc_char c rest = ground arith

-- A browser reads the escaped text, in an element or in an attribute, as the original, with no markup
-- and no end of an attribute in it.
pub decode-esc : (s : List ℕ) → decode none (esc (some s)) ≡ some s
unfolding esc decode
decode-esc [] = refl
decode-esc (c ∷ s) = decode-esc_char c (esc_all s) ∙ ap (before (c ∷ [])) (decode-esc s)

-- Neither markup nor the end of a quoted attribute.
abbrev pub IsInert : ℕ → Type 0
IsInert c = (c ≢ b'<') × (c ≢ b'>') × (c ≢ 34) × (c ≢ 39)

esc_char-IsInert : (c : ℕ) → All IsInert (esc_char c)
unfolding esc_char
esc_char-IsInert c = ground arith

-- The escaped text holds no `<`, no `>` and no quotation mark, so it opens no tag and closes no
-- attribute, whatever the text was.
pub esc-IsInert : (s : Option (List ℕ)) → All IsInert (esc s)
unfolding esc
esc-IsInert none = tt
esc-IsInert (some []) = tt
esc-IsInert (some (c ∷ s)) =
    All-append IsInert (esc_char c) (esc_all s) (esc_char-IsInert c) (esc-IsInert (some s))
