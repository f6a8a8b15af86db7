-- ===== src/Logbuf/Rows.antt =====
-- The rows of the ring: what `memcpy` leaves in one, and what `render` reads back from it.
use spool_gate.Base.{
  ℕ, zero, suc, ◌+◌, ◌-◌, ◌<◌, ◌≤◌, ◌≡◌, refl, ap, ◌∙◌, List, [], ◌∷◌, ◌++◌, arith, Text, c_str,
  length, set, drop, All, get_or, length-append, length-drop,
}
use spool_gate.Logbuf.{overlay, row_text, line_len}
use spool_gate.Logbuf.Clean.{IsPlain}

c_str-set :
    (line rest : Text) (k : ℕ)
    → All IsPlain line
    → length line ≤ k
    → c_str (set (line ++ 0 ∷ rest) k 0) ≡ line
unfolding c_str
c_str-set [] rest zero p h = refl
c_str-set [] rest (suc k) p h = refl
c_str-set (c ∷ line) rest zero p h = absurd (omega arith)
c_str-set (c ∷ line) rest (suc k) p h = ground (arith, c_str-set line rest k p.1 (omega arith))

append_one : (line rest : Text) → (line ++ 0 ∷ []) ++ rest ≡ line ++ 0 ∷ rest
append_one [] rest = refl
append_one (c ∷ line) rest = ap (λ t. c ∷ t) (append_one line rest)

-- A row reads back as the line that was last copied into it, whatever it held before.
pub row_text-overlay :
    (line row : Text)
    → All IsPlain line
    → length line < line_len
    → row_text (overlay line row) ≡ line
unfolding row_text overlay
row_text-overlay line row p h =
    ap (λ t. c_str (set t (line_len - 1) 0)) (append_one line (drop (length line + 1) row))
    ∙ c_str-set line (drop (length line + 1) row) (line_len - 1) p (omega arith)

-- A row keeps its length: the copy never leaves it.
pub length-overlay :
    (line row : Text)
    → length row ≡ line_len
    → length line < line_len
    → length (overlay line row) ≡ line_len
unfolding overlay
length-overlay line row r h = omega (
  arith,
  length-append (line ++ 0 ∷ []) (drop (length line + 1) row),
  length-append line (0 ∷ []),
  length-drop (length line + 1) row,
)

pub All-set {ℓ κ} :
    {A : Type ℓ} (P : A → Type κ) (xs : List A) (i : ℕ) (v : A)
    → All P xs
    → P v
    → All P (set xs i v)
All-set P [] i v a p = tt
All-set P (x ∷ xs) zero v a p = (p, a.1)
All-set P (x ∷ xs) (suc i) v a p = (a.0, All-set P xs i v a.1 p)

pub All-get_or {ℓ κ} :
    {A : Type ℓ} (P : A → Type κ) (xs : List A) (i : ℕ) (d : A)
    → i < length xs
    → All P xs
    → P (get_or xs i d)
All-get_or P [] i d h a = absurd (omega arith)
All-get_or P (x ∷ xs) zero d h a = a.0
All-get_or P (x ∷ xs) (suc i) d h a = All-get_or P xs i d (omega arith) a.1
