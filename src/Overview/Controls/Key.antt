-- ===== src/Overview/Controls/Key.antt =====
-- The key of the card of controls and the controls it stands for (`renderControls` of
-- web/nasa_web/static/js/views/overview.js).
use text.Mathlib.TextEquality.{Char-path}
use nasa_cpp.Base.{
  ℕ, ◌≡◌, refl, ap, sym, ◌≢◌, ◌<◌, ◌≤◌, All-append, Bool, true, false, List, [], ◌∷◌, ◌++◌, String,
  length, length-append, All, arith, if◌then◌else◌,
}
use nasa_cpp.Base.Text.{codes}
use nasa_cpp.Format.Escape.{same_text}
use nasa_cpp.Overview.Controls.{key_of}

pub same_text-path : (s t : List ℕ) → same_text s t ≡ true → s ≡ t
same_text-path [] [] h = refl
same_text-path [] (b ∷ t) h = ground arith
same_text-path (a ∷ s) [] h = ground arith
same_text-path (a ∷ s) (b ∷ t) h = ground (arith, same_text-path s t)

codes-path : (s t : String) → codes s ≡ codes t → s ≡ t
codes-path String.[] String.[] h = refl
codes-path String.[] (String.◌∷◌ d t) h = ground arith
codes-path (String.◌∷◌ c s) String.[] h = ground arith
codes-path (String.◌∷◌ c s) (String.◌∷◌ d t) h = cc (Char-path c d (cc), codes-path s t (cc))

-- No code point is a comma.
abbrev NoCommaIn : List ℕ → Type 0
NoCommaIn u = All (λ c. c ≢ b',') u

abbrev pub NoComma : String → Type 0
NoComma id = NoCommaIn (codes id)

-- Texts up to the first comma.
up_to_comma :
    (u v p q : List ℕ)
    → NoCommaIn u
    → NoCommaIn v
    → u ++ b',' ∷ p ≡ v ++ b',' ∷ q
    → (u ≡ v) × (p ≡ q)
up_to_comma [] [] p q hu hv h = ground arith
up_to_comma [] (d ∷ v) p q hu hv h = ground arith
up_to_comma (c ∷ u) [] p q hu hv h = ground arith
up_to_comma (c ∷ u) (d ∷ v) p q (nc, hu) (nd, hv) h = ground (arith, up_to_comma u v p q hu hv)

no_more : (u v q : List ℕ) → NoCommaIn u → u ≢ v ++ b',' ∷ q
no_more [] [] q hu h = ground arith
no_more [] (d ∷ v) q hu h = ground arith
no_more (c ∷ u) [] q (nc, hu) h = ground arith
no_more (c ∷ u) (d ∷ v) q (nc, hu) h = ground (arith, no_more u v q hu)

abbrev ending : Bool → List ℕ
ending read_only = if read_only then codes "true" else codes "false"

length-ending : (r : Bool) → (4 ≤ length (ending r)) × (length (ending r) ≤ 5)
length-ending true = (omega arith, omega arith)
length-ending false = (omega arith, omega arith)

ending_plain : (r : Bool) → NoCommaIn (ending r)
ending_plain true = ground arith
ending_plain false = ground arith

-- The end of a key stands for one value, and says where it begins.
no_longer : (r s : Bool) (d : ℕ) (v : List ℕ) → ending r ≢ d ∷ v ++ ending s
no_longer r s d [] h = ground arith
no_longer r s d (c ∷ v) h =
    omega (arith, length-ending r, length-ending s, ap length h, length-append v (ending s))

ending_cancel : (u v : List ℕ) (r s : Bool) → u ++ ending r ≡ v ++ ending s → u ≡ v
ending_cancel [] [] r s h = refl
ending_cancel [] (d ∷ v) r s h = absurd (no_longer r s d v h)
ending_cancel (c ∷ u) [] r s h = absurd (no_longer s r c u (sym h))
ending_cancel (c ∷ u) (d ∷ v) r s h = ground (arith, ending_cancel u v r s)

ending-NoComma : (u : List ℕ) (r : Bool) → NoCommaIn u → NoCommaIn (u ++ ending r)
ending-NoComma u r h = All-append (λ c. c ≢ b',') u (ending r) h (ending_plain r)

-- Where no id has a comma in it, the key of a set of ids, in their order, is the key of no other one.
pub key_of-path :
    (ids js : List String) (r s : Bool)
    → All NoComma ids
    → All NoComma js
    → 0 < length ids
    → 0 < length js
    → key_of ids r ≡ key_of js s
    → ids ≡ js
unfolding key_of
key_of-path [] js r s hi hj li lj h = elim li [ ]
key_of-path (i ∷ ids) [] r s hi hj li lj h = elim lj [ ]
key_of-path (i ∷ []) (j ∷ []) r s hi hj li lj h =
    cc (codes-path i j (ending_cancel (codes i) (codes j) r s h))
key_of-path (i ∷ []) (j ∷ k ∷ js) r s (ni, hi) hj li lj h =
    absurd (
      no_more (codes i ++ ending r) (codes j) (key_of (k ∷ js) s) (ending-NoComma (codes i) r ni) h)
key_of-path (i ∷ k ∷ ids) (j ∷ []) r s hi (nj, hj) li lj h = absurd (
    no_more (codes j ++ ending s) (codes i) (key_of (k ∷ ids) r) (ending-NoComma (codes j) s nj)
      (sym h))
key_of-path (i ∷ k ∷ ids) (j ∷ l ∷ js) r s (ni, hi) (nj, hj) li lj h =
    let (heads, tails) =
      up_to_comma (codes i) (codes j) (key_of (k ∷ ids) r) (key_of (l ∷ js) s) ni nj h in
    cc (
      codes-path i j heads,
      key_of-path (k ∷ ids) (l ∷ js) r s hi hj (omega arith) (omega arith) tails,
    )

-- The key of a set that is not empty is not empty.
pub key_of-ne-nil : (id : String) (ids : List String) (r : Bool) → key_of (id ∷ ids) r ≢ []
unfolding key_of
key_of-ne-nil id [] r h =
    omega (arith, ap length h, length-append (codes id) (ending r), length-ending r)
key_of-ne-nil id (next ∷ ids) r h =
    omega (arith, ap length h, length-append (codes id) (b',' ∷ key_of (next ∷ ids) r))
