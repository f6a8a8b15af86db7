-- ===== src/Portal/Structure.antt =====
-- What a browser takes for the tags of a page, and what the values in it can do to them. The reader
-- knows elements and quoted attributes, which is all that stands around the values of the pages here.
use spool_gate.Base.{
  ℕ, ◌≡◌, refl, ap, sym, ◌∙◌, Bool, true, false, ◌&&◌, ◌||◌, List, [], ◌∷◌, ◌++◌, Text, codes, ◌==◌,
  if◌then◌else◌, arith, All, append_assoc,
}
use spool_gate.Portal.Escape.{IsInert}
use spool_gate.Portal.Markup.{Piece, markup, raw, value, page_text}

pub data Place : Type 0 where
  in_text in_tag in_single in_double : Place

-- Where the reader stands behind a byte.
unfoldable pub next : ℕ → Place → Place
next c in_text = if c == b'<' then in_tag else in_text
next c in_tag =
    if c == b'>'
    then in_text
    else (if c == 39 then in_single else (if c == b'"' then in_double else in_tag))
next c in_single = if c == 39 then in_tag else in_single
next c in_double = if c == b'"' then in_tag else in_double

unfoldable pub after : Place → Text → Place
after q [] = q
after q (c ∷ t) = after (next c q) t

abbrev is_tag : Place → Bool
is_tag in_tag = true
is_tag _ = false

-- The tags of a text: its bytes without those between two tags and those between two quotes.
unfoldable pub structure : Place → Text → Text
structure q [] = []
structure q (c ∷ t) =
    let rest = structure (next c q) t in if is_tag q || is_tag (next c q) then c ∷ rest else rest

abbrev pub is_quiet : Place → Bool
is_quiet in_tag = false
is_quiet _ = true

after-append : (q : Place) (t u : Text) → after q (t ++ u) ≡ after (after q t) u
unfolding after
after-append q [] u = refl
after-append q (c ∷ t) u = after-append (next c q) t u

cons_if :
    (b : Bool) (c : ℕ) (t u : Text)
    → (if b then c ∷ (t ++ u) else t ++ u) ≡ (if b then c ∷ t else t) ++ u
cons_if true c t u = refl
cons_if false c t u = refl

structure-append :
    (q : Place) (t u : Text) → structure q (t ++ u) ≡ structure q t ++ structure (after q t) u
unfolding structure after
structure-append q [] u = refl
structure-append q (c ∷ t) u = rw (structure-append (next c q) t u) (
    cons_if (is_tag q || is_tag (next c q)) c (structure (next c q) t)
      (structure (after (next c q) t) u))

next-inert : (c : ℕ) (q : Place) → is_quiet q ≡ true → IsInert c → next c q ≡ q
unfolding next
next-inert c in_text h i = ground (arith, i.not_less)
next-inert c in_tag h i = absurd (cc h)
next-inert c in_single h i = ground (arith, i.not_apostrophe)
next-inert c in_double h i = ground (arith, i.not_quote)

quiet-is_tag : (q : Place) → is_quiet q ≡ true → is_tag q ≡ false
quiet-is_tag in_text h = refl
quiet-is_tag in_tag h = absurd (cc h)
quiet-is_tag in_single h = refl
quiet-is_tag in_double h = refl

after-inert : (q : Place) (t : Text) → is_quiet q ≡ true → All IsInert t → after q t ≡ q
unfolding after
after-inert q [] h i = refl
after-inert q (c ∷ t) h i = rw (next-inert c q h i.0) (after-inert q t h i.1)

structure-inert : (q : Place) (t : Text) → is_quiet q ≡ true → All IsInert t → structure q t ≡ []
unfolding structure
structure-inert q [] h i = refl
structure-inert q (c ∷ t) h i =
    rw (next-inert c q h i.0, quiet-is_tag q h) (structure-inert q t h i.1)

-- A page without its values.
unfoldable pub erased : List Piece → Text
erased [] = []
erased (markup t ∷ ps) = codes t ++ erased ps
erased (raw t ∷ ps) = t ++ erased ps
erased (value t ∷ ps) = erased ps

-- Every value stands between two tags or between two quotes.
unfoldable pub contained : Place → List Piece → Bool
contained q [] = true
contained q (markup t ∷ ps) = contained (after q (codes t)) ps
contained q (raw t ∷ ps) = contained (after q t) ps
contained q (value t ∷ ps) = is_quiet q && contained q ps

unfoldable pub leaves : Place → List Piece → Place
leaves q [] = q
leaves q (markup t ∷ ps) = leaves (after q (codes t)) ps
leaves q (raw t ∷ ps) = leaves (after q t) ps
leaves q (value t ∷ ps) = leaves q ps

unfoldable pub AllInert : List Piece → Type 0
AllInert [] = Unit
AllInert (markup t ∷ ps) = AllInert ps
AllInert (raw t ∷ ps) = AllInert ps
AllInert (value t ∷ ps) = All IsInert t × AllInert ps

pub structure-erased :
    (q : Place) (ps : List Piece)
    → contained q ps ≡ true
    → AllInert ps
    → structure q (page_text ps) ≡ structure q (erased ps)
unfolding page_text erased contained AllInert
structure-erased q [] c i = refl
structure-erased q (markup t ∷ ps) c i =
    structure-append q (codes t) (page_text ps)
    ∙ (ap (λ u. structure q (codes t) ++ u) (structure-erased (after q (codes t)) ps c i)
        ∙ sym (structure-append q (codes t) (erased ps)))
structure-erased q (raw t ∷ ps) c i =
    structure-append q t (page_text ps)
    ∙ (ap (λ u. structure q t ++ u) (structure-erased (after q t) ps c i)
        ∙ sym (structure-append q t (erased ps)))
structure-erased q (value t ∷ ps) c i =
    structure-append q t (page_text ps)
    ∙ rw (structure-inert q t (ground (arith, c)) i.0, after-inert q t (ground (arith, c)) i.0)
        (structure-erased q ps (ground (arith, c)) i.1)

-- A part of a page that starts and ends between two tags, whatever its values are.
pub record IsTame (ps : List Piece) : Type 0 where
  pub contains : contained in_text ps ≡ true
  pub returns : leaves in_text ps ≡ in_text
  pub inert : AllInert ps

contained-append :
    (q : Place) (ps qs : List Piece)
    → contained q (ps ++ qs) ≡ (contained q ps && contained (leaves q ps) qs)
unfolding contained leaves
contained-append q [] qs = refl
contained-append q (markup t ∷ ps) qs = contained-append (after q (codes t)) ps qs
contained-append q (raw t ∷ ps) qs = contained-append (after q t) ps qs
contained-append q (value t ∷ ps) qs = ground (arith, contained-append q ps qs)

leaves-append : (q : Place) (ps qs : List Piece) → leaves q (ps ++ qs) ≡ leaves (leaves q ps) qs
unfolding leaves
leaves-append q [] qs = refl
leaves-append q (markup t ∷ ps) qs = leaves-append (after q (codes t)) ps qs
leaves-append q (raw t ∷ ps) qs = leaves-append (after q t) ps qs
leaves-append q (value t ∷ ps) qs = leaves-append q ps qs

AllInert-append : (ps qs : List Piece) → AllInert ps → AllInert qs → AllInert (ps ++ qs)
unfolding AllInert
AllInert-append [] qs i j = j
AllInert-append (markup t ∷ ps) qs i j = AllInert-append ps qs i j
AllInert-append (raw t ∷ ps) qs i j = AllInert-append ps qs i j
AllInert-append (value t ∷ ps) qs i j = (i.0, AllInert-append ps qs i.1 j)

pub append-IsTame : (ps qs : List Piece) → IsTame ps → IsTame qs → IsTame (ps ++ qs)
append-IsTame ps qs p q = record {
  contains = rw (contained-append in_text ps qs, p.contains, p.returns) q.contains;
  returns = rw (leaves-append in_text ps qs, p.returns) q.returns;
  inert = AllInert-append ps qs p.inert q.inert;
}

pub erased-append : (ps qs : List Piece) → erased (ps ++ qs) ≡ erased ps ++ erased qs
unfolding erased
erased-append [] qs = refl
erased-append (markup t ∷ ps) qs =
    ap (λ u. codes t ++ u) (erased-append ps qs)
    ∙ sym (append_assoc (codes t) (erased ps) (erased qs))
erased-append (raw t ∷ ps) qs =
    ap (λ u. t ++ u) (erased-append ps qs) ∙ sym (append_assoc t (erased ps) (erased qs))
erased-append (value t ∷ ps) qs = erased-append ps qs
