-- ===== src/Portal/Parts.antt =====
-- Parts of a form as a browser reads them: their inputs, one part behind the other.
use spool_gate.Base.{
  ℕ, ◌≡◌, refl, ap, sym, ◌∙◌, List, [], ◌∷◌, ◌++◌, Text, String, codes, append_assoc,
}
use spool_gate.Portal.Markup.{Piece, markup, raw, value}
use spool_gate.Portal.Reader.{
  Reader, Tag, outside, absorb, read_text, read_pieces, AllQuiet, drop_last, inputs_of,
}

drop_last_lem : (t : Text) (c : ℕ) → drop_last (t ++ c ∷ []) ≡ t
unfolding drop_last
drop_last_lem [] c = refl
drop_last_lem (d ∷ []) c = refl
drop_last_lem (d ∷ e ∷ t) c = ap (λ u. d ∷ u) (drop_last_lem (e ∷ t) c)

-- What is found behind a part, with the tags of the part.
abbrev behind : List Tag → Reader × List Tag → Reader × List Tag
behind ts x = (x.0, ts ++ x.1)

behind_twice :
    (ts us : List Tag) (x : Reader × List Tag) → behind ts (behind us x) ≡ behind (ts ++ us) x
behind_twice ts us x = ap (λ (l : List Tag). (x.0, l)) (sym (append_assoc ts us x.1))

read_pieces-append :
    (r : Reader) (ps qs : List Piece)
    → read_pieces r (ps ++ qs) ≡ behind (read_pieces r ps).1 (read_pieces (read_pieces r ps).0 qs)
unfolding read_pieces
read_pieces-append r [] qs = refl
read_pieces-append r (markup t ∷ ps) qs =
    let s = read_text r (codes t) in
    ap (behind s.1) (read_pieces-append s.0 ps qs) ∙ behind_twice s.1 (read_pieces s.0 ps).1 _
read_pieces-append r (raw t ∷ ps) qs =
    let s = read_text r t in
    ap (behind s.1) (read_pieces-append s.0 ps qs) ∙ behind_twice s.1 (read_pieces s.0 ps).1 _
read_pieces-append r (value v ∷ ps) qs = read_pieces-append (absorb (r.place) v r) ps qs

AllQuiet-append :
    (r : Reader) (ps qs : List Piece)
    → AllQuiet r ps
    → AllQuiet (read_pieces r ps).0 qs
    → AllQuiet r (ps ++ qs)
unfolding AllQuiet read_pieces
AllQuiet-append r [] qs h k = k
AllQuiet-append r (markup t ∷ ps) qs h k = AllQuiet-append (read_text r (codes t)).0 ps qs h k
AllQuiet-append r (raw t ∷ ps) qs h k = AllQuiet-append (read_text r t).0 ps qs h k
AllQuiet-append r (value v ∷ ps) qs h k =
    (h.0, h.1, AllQuiet-append (absorb (r.place) v r) ps qs h.2 k)

-- A part of a page that starts and ends between two tags and has exactly these inputs.
pub record Holds (ps : List Piece) (inputs : List (Text × Text)) : Type 0 where
  pub quiet : AllQuiet outside ps
  pub returns : (read_pieces outside ps).0 ≡ outside
  pub inputs_found :
      (rest : List Tag)
      → inputs_of [] ((read_pieces outside ps).1 ++ rest) ≡ inputs ++ inputs_of [] rest

pub append-Holds :
    (ps qs : List Piece) (is js : List (Text × Text))
    → Holds ps is
    → Holds qs js
    → Holds (ps ++ qs) (is ++ js)
append-Holds ps qs is js h k =
    let ts = (read_pieces outside ps).1 in
    let us = (read_pieces outside qs).1 in
    record {
      quiet = AllQuiet-append outside ps qs h.quiet (rw h.returns k.quiet);
      returns = rw (read_pieces-append outside ps qs, h.returns) k.returns;
      inputs_found = λ rest.
          rw (read_pieces-append outside ps qs, h.returns)
            (ap (inputs_of []) (append_assoc ts us rest)
              ∙ (h.inputs_found (us ++ rest)
                  ∙ (ap (λ l. is ++ l) (k.inputs_found rest)
                      ∙ sym (append_assoc is js (inputs_of [] rest)))));
    }

-- An input whose value stands between single quotes.
unfoldable pub given : String → Text → Text × Text
given name v = (codes name, drop_last (v ++ 39 ∷ []))

pub given_lem : (name : String) (v : Text) → given name v ≡ (codes name, v)
unfolding given
given_lem name v = ap (λ t. (codes name, t)) (drop_last_lem v 39)
