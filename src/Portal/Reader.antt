-- ===== src/Portal/Reader.antt =====
-- How a browser reads the inputs of a form: a reader of tags, their words and their quoted attributes,
-- which does not come from the code.
use mathlib.Core.List.{append-nil}
use spool_gate.Base.{
  ℕ, ◌≡◌, refl, ap, sym, ◌∙◌, Bool, true, false, ◌&&◌, Option, none, some, List, [], ◌∷◌, ◌++◌,
  Text, codes, text_eq, ◌==◌, if◌then◌else◌, arith, All, append_assoc, ◌≢◌,
}
use spool_gate.Portal.Escape.{IsInert}
use spool_gate.Portal.Markup.{Piece, markup, raw, value, page_text}
use spool_gate.Portal.Structure.{Place, in_text, in_tag, in_single, in_double, is_quiet}

-- A tag as its words: a space between quotes does not end a word.
abbrev pub Tag : Type 0
Tag = List Text

-- Where the reader stands, the word that it is in, and the words of this tag before it.
pub record Reader : Type 0 where
  pub place : Place
  pub word : Text
  pub words : List Text

abbrev pub outside : Reader
outside = record { place = in_text; word = []; words = [] }

abbrev opened : Reader
opened = record { place = in_tag; word = []; words = [] }

abbrev grow : Place → ℕ → Reader → Reader
grow q c r = record r { place = q; word = r.word ++ c ∷ [] }

-- One byte, and the tag that it ends.
unfoldable pub take_byte : Place → ℕ → Reader → Reader × List Tag
take_byte in_text c r = if c == b'<' then (opened, []) else (r, [])
take_byte in_tag c r =
    if c == b'>'
    then (outside, (r.words ++ r.word ∷ []) ∷ [])
    else (if c == 32
        then (record r { word = []; words = r.words ++ r.word ∷ [] }, [])
        else (if c == 39
            then (grow in_single c r, [])
            else (if c == b'"' then (grow in_double c r, []) else (grow in_tag c r, []))))
take_byte in_single c r = (grow (if c == 39 then in_tag else in_single) c r, [])
take_byte in_double c r = (grow (if c == b'"' then in_tag else in_double) c r, [])

unfoldable pub read_text : Reader → Text → Reader × List Tag
read_text r [] = (r, [])
read_text r (c ∷ t) =
    let (r₁, ts) = take_byte (r.place) c r in let (r₂, us) = read_text r₁ t in (r₂, ts ++ us)

unfoldable pub tags : Text → List Tag
tags t = (read_text outside t).1

-- The same over pieces, a value taken as a whole.
abbrev pub absorb : Place → Text → Reader → Reader
absorb in_text v r = r
absorb _ v r = record r { word = r.word ++ v }

unfoldable pub read_pieces : Reader → List Piece → Reader × List Tag
read_pieces r [] = (r, [])
read_pieces r (markup t ∷ ps) =
    let (r₁, ts) = read_text r (codes t) in let (r₂, us) = read_pieces r₁ ps in (r₂, ts ++ us)
read_pieces r (raw t ∷ ps) =
    let (r₁, ts) = read_text r t in let (r₂, us) = read_pieces r₁ ps in (r₂, ts ++ us)
read_pieces r (value v ∷ ps) = read_pieces (absorb (r.place) v r) ps

-- The values stand outside of tags or between quotes, and have no byte of the markup.
unfoldable pub AllQuiet : Reader → List Piece → Type 0
AllQuiet r [] = Unit
AllQuiet r (markup t ∷ ps) = AllQuiet (read_text r (codes t)).0 ps
AllQuiet r (raw t ∷ ps) = AllQuiet (read_text r t).0 ps
AllQuiet r (value v ∷ ps) =
    (is_quiet (r.place) ≡ true) × All IsInert v × AllQuiet (absorb (r.place) v r) ps

read_text-append :
    (r : Reader) (t u : Text)
    → read_text r (t ++ u)
      ≡ ((read_text (read_text r t).0 u).0, (read_text r t).1 ++ (read_text (read_text r t).0 u).1)
unfolding read_text
read_text-append r [] u = refl
read_text-append r (c ∷ t) u =
    let s = take_byte (r.place) c r in
    ap (λ (x : Reader × List Tag). (x.0, s.1 ++ x.1)) (read_text-append s.0 t u)
    ∙ ap (λ (l : List Tag). ((read_text (read_text s.0 t).0 u).0, l))
        (sym (append_assoc s.1 (read_text s.0 t).1 (read_text (read_text s.0 t).0 u).1))

other_byte : (c d : ℕ) → c ≢ d → (c == d) ≡ false
other_byte c d n = ground (arith, n)

abbrev at : Place → Text → List Text → Reader
at q w ws = record { place = q; word = w; words = ws }

take_inert :
    (c : ℕ) (q : Place) (w : Text) (ws : List Text)
    → is_quiet q ≡ true
    → IsInert c
    → take_byte q c (at q w ws) ≡ (absorb q (c ∷ []) (at q w ws), [])
unfolding take_byte
take_inert c in_text w ws h i = ground (arith, i.not_less)
take_inert c in_tag w ws h i = absurd (cc h)
take_inert c in_single w ws h i = rw (other_byte c 39 i.not_apostrophe) refl
take_inert c in_double w ws h i = rw (other_byte c 34 i.not_quote) refl

read_inert :
    (v : Text) (q : Place) (w : Text) (ws : List Text)
    → is_quiet q ≡ true
    → All IsInert v
    → read_text (at q w ws) v ≡ (absorb q v (at q w ws), [])
unfolding read_text
read_inert [] in_text w ws h i = refl
read_inert [] in_tag w ws h i = absurd (cc h)
read_inert [] in_single w ws h i = ap (λ u. (at in_single u ws, [])) (sym (append-nil w))
read_inert [] in_double w ws h i = ap (λ u. (at in_double u ws, [])) (sym (append-nil w))
read_inert (c ∷ v) in_text w ws h i =
    rw (take_inert c in_text w ws h i.0) (read_inert v in_text w ws h i.1)
read_inert (c ∷ v) in_tag w ws h i = absurd (cc h)
read_inert (c ∷ v) in_single w ws h i = rw (take_inert c in_single w ws h i.0) (
    read_inert v in_single (w ++ c ∷ []) ws h i.1
    ∙ ap (λ u. (at in_single u ws, [])) (append_assoc w (c ∷ []) v))
read_inert (c ∷ v) in_double w ws h i = rw (take_inert c in_double w ws h i.0) (
    read_inert v in_double (w ++ c ∷ []) ws h i.1
    ∙ ap (λ u. (at in_double u ws, [])) (append_assoc w (c ∷ []) v))

-- A page is read as its pieces are.
pub read_text-page_text :
    (r : Reader) (ps : List Piece) → AllQuiet r ps → read_text r (page_text ps) ≡ read_pieces r ps
unfolding page_text read_pieces AllQuiet
read_text-page_text r [] q = unfold read_text in refl
read_text-page_text r (markup t ∷ ps) q =
    read_text-append r (codes t) (page_text ps)
    ∙ ap (λ (x : Reader × List Tag). (x.0, (read_text r (codes t)).1 ++ x.1))
        (read_text-page_text (read_text r (codes t)).0 ps q)
read_text-page_text r (raw t ∷ ps) q =
    read_text-append r t (page_text ps)
    ∙ ap (λ (x : Reader × List Tag). (x.0, (read_text r t).1 ++ x.1))
        (read_text-page_text (read_text r t).0 ps q)
read_text-page_text r (value v ∷ ps) q =
    read_text-append r v (page_text ps)
    ∙ rw (read_inert v r.place r.word r.words q.0 q.1)
        (read_text-page_text (absorb (r.place) v r) ps q.2)

-- An attribute: what stands behind its name and the sign, if a word begins so.
unfoldable pub stripped : Text → Text → Option Text
stripped [] t = some t
stripped (c ∷ p) [] = none
stripped (c ∷ p) (d ∷ t) = let more = stripped p t in if c == d then more else none

unfoldable pub drop_last : Text → Text
drop_last [] = []
drop_last (c ∷ []) = []
drop_last (c ∷ d ∷ t) = c ∷ drop_last (d ∷ t)

-- A value in single quotes, or without any.
unfoldable pub unquoted : Text → Text
unquoted [] = []
unquoted (c ∷ t) = if c == 39 then drop_last t else c ∷ t

abbrev or_else : Option Text → Option Text → Option Text
or_else none o = o
or_else (some t) o = some t

unfoldable pub attribute : Text → Tag → Option Text
attribute name [] = none
attribute name (w ∷ ws) = or_else (stripped name w) (attribute name ws)

abbrev text_or_empty : Option Text → Text
text_or_empty none = []
text_or_empty (some t) = t

unfoldable pub attribute_value : Text → Tag → Text
attribute_value name ws = unquoted (text_or_empty (attribute name ws))

abbrev first_word : Tag → Text
first_word [] = []
first_word (w ∷ ws) = w

abbrev has_word : Text → Tag → Bool
has_word t [] = false
has_word t (w ∷ ws) = let later = has_word t ws in if text_eq t w then true else later

-- The `select` that is open behind a tag, by its name.
unfoldable pub open_select : Text → Tag → Text
open_select select tag =
    if text_eq (first_word tag) (codes "select")
    then attribute_value (codes "name=") tag
    else (if text_eq (first_word tag) (codes "/select") then [] else select)

-- The input that a tag makes: an `input` with its name and its value, and the `option` that is selected
-- with the name of its `select`.
unfoldable pub input_of : Text → Tag → List (Text × Text)
input_of select tag =
    if text_eq (first_word tag) (codes "input")
    then (attribute_value (codes "name=") tag, attribute_value (codes "value=") tag) ∷ []
    else (if text_eq (first_word tag) (codes "option") && has_word (codes "selected") tag
        then (select, attribute_value (codes "value=") tag) ∷ []
        else [])

-- The inputs of a form, in their order.
unfoldable pub inputs_of : Text → List Tag → List (Text × Text)
inputs_of select [] = []
inputs_of select (tag ∷ rest) = input_of select tag ++ inputs_of (open_select select tag) rest
