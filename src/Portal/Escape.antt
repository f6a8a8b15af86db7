-- ===== src/Portal/Escape.antt =====
-- `htmlEscape` of src/web/portal.cpp: what the pages make of a stored text.
use spool_gate.Base.{
  All-append, Bool, true, false, ℕ, zero, suc, ◌≤◌, ◌≡◌, ◌≢◌, refl, ap, ◌∙◌, Option, none, some, [],
  ◌∷◌, ◌++◌, Text, codes, ◌==◌, if◌then◌else◌, arith, length, All, length-append,
}

-- The `switch` on one byte.
entity : ℕ → Text
entity c =
    if c == b'&'
    then codes "&amp;"
    else (if c == b'<'
        then codes "&lt;"
        else (if c == b'>'
            then codes "&gt;"
            else (if c == b'"'
                then codes "&quot;"
                else (if c == 39 then codes "&#39;" else c ∷ []))))

unfoldable pub html_escape : Text → Text
unfolding entity
html_escape [] = []
html_escape (c ∷ t) = entity c ++ html_escape t

-- A byte that ends neither an element, nor a quoted attribute, nor begins an element.
pub record IsInert (c : ℕ) : Type 0 where
  pub not_less : c ≢ b'<'
  pub not_greater : c ≢ b'>'
  pub not_quote : c ≢ b'"'
  pub not_apostrophe : c ≢ 39

entity-IsInert : (c : ℕ) → All IsInert (entity c)
unfolding entity
entity-IsInert c = ground arith

-- An escaped text holds no byte that could leave the quoted attribute or the element that it stands
-- in.
pub html_escape-IsInert : (t : Text) → All IsInert (html_escape t)
unfolding html_escape
html_escape-IsInert [] = tt
html_escape-IsInert (c ∷ t) =
    All-append IsInert (entity c) (html_escape t) (entity-IsInert c) (html_escape-IsInert t)

-- How a browser reads it back: the five entities, and every other byte as it is.
strip : Text → Text → Option Text
strip [] t = some t
strip (c ∷ p) [] = none
strip (c ∷ p) (d ∷ t) = if c == d then strip p t else none

try : ℕ → Text → Text → Option (ℕ × Text) → Option (ℕ × Text)
unfolding strip
try c name t otherwise = elim (strip name t) [ some rest ↦ some (c, rest) | none ↦ otherwise ]

pub read_entity : Text → Option (ℕ × Text)
unfolding try
read_entity t = try b'&' (codes "amp;") t (
    try b'<' (codes "lt;") t
      (try b'>' (codes "gt;") t (try b'"' (codes "quot;") t (try 39 (codes "#39;") t none))))

pub unescape_from : ℕ → Text → Text
unfolding read_entity
unescape_from zero t = []
unescape_from (suc fuel) [] = []
unescape_from (suc fuel) (c ∷ t) = elim (if c == b'&' then read_entity t else some (c, t)) [
  | none ↦ c ∷ unescape_from fuel t
  | some (d, rest) ↦ d ∷ unescape_from fuel rest
]

pub unescape : Text → Text
unescape t = unescape_from (length t) t

unescape-entity :
    (c fuel : ℕ) (t : Text) → unescape_from (suc fuel) (entity c ++ t) ≡ c ∷ unescape_from fuel t
unfolding entity unescape_from
unescape-entity c fuel t = ground arith

unescape_from-html_escape :
    (t : Text) (fuel : ℕ) → length t ≤ fuel → unescape_from fuel (html_escape t) ≡ t
unfolding html_escape unescape_from
unescape_from-html_escape [] zero h = refl
unescape_from-html_escape [] (suc fuel) h = refl
unescape_from-html_escape (c ∷ t) zero h = absurd (omega arith)
unescape_from-html_escape (c ∷ t) (suc fuel) h =
    unescape-entity c fuel (html_escape t)
    ∙ ap (λ u. c ∷ u) (unescape_from-html_escape t fuel (omega arith))

entity-length : (c : ℕ) → 1 ≤ length (entity c)
unfolding entity
entity-length c = ground arith

length-html_escape : (t : Text) → length t ≤ length (html_escape t)
unfolding html_escape
length-html_escape [] = omega arith
length-html_escape (c ∷ t) =
    omega (arith, length-append (entity c) (html_escape t), entity-length c, length-html_escape t)

-- A browser that reads the five entities back shows the stored text, byte for byte: nothing is lost
-- or merged by the escaping.
pub unescape-html_escape : (t : Text) → unescape (html_escape t) ≡ t
unfolding unescape
unescape-html_escape t = unescape_from-html_escape t (length (html_escape t)) (length-html_escape t)

abbrev pub no_ampersand : Text → Bool
no_ampersand [] = true
no_ampersand (c ∷ t) = if c == b'&' then false else no_ampersand t

unescape_from-plain :
    (t : Text) (fuel : ℕ) → length t ≤ fuel → no_ampersand t ≡ true → unescape_from fuel t ≡ t
unfolding unescape_from
unescape_from-plain [] zero l h = refl
unescape_from-plain [] (suc fuel) l h = refl
unescape_from-plain (c ∷ t) zero l h = absurd (omega arith)
unescape_from-plain (c ∷ t) (suc fuel) l h = ground (arith, unescape_from-plain t fuel)

-- A text without an ampersand is read back as it is.
pub unescape-plain : (t : Text) → no_ampersand t ≡ true → unescape t ≡ t
unfolding unescape
unescape-plain t h = unescape_from-plain t (length t) (omega arith) h
