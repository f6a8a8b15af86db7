-- ===== src/Logbuf/Window.antt =====
-- The rows of the ring that lie between two positions, going round at its end.
use spool_gate.Base.{
  ℕ, zero, suc, ◌+◌, ◌-◌, ◌%◌, ◌<◌, ◌≡◌, refl, ap, ◌∙◌, List, [], ◌∷◌, ◌++◌, arith, Text, length,
  set, get_or, get_or-set_ne,
}
use spool_gate.Logbuf.{row_text, lines_max}

abbrev pub row_at : List Text → ℕ → Text
row_at lines i = row_text (get_or lines (i % lines_max) [])

-- The texts of `n` rows from position `s` on.
unfoldable pub window : List Text → ℕ → ℕ → List Text
window lines s zero = []
window lines s (suc n) = row_at lines s ∷ window lines (s + 1) n

pub length-window : (lines : List Text) (s n : ℕ) → length (window lines s n) ≡ n
unfolding window
length-window lines s zero = refl
length-window lines s (suc n) = ap suc (length-window lines (s + 1) n)

-- Positions count modulo the number of rows.
pub window-mod :
    (lines : List Text) (s s' n : ℕ)
    → s % lines_max ≡ s' % lines_max
    → window lines s n ≡ window lines s' n
unfolding window
window-mod lines s s' zero e = refl
window-mod lines s s' (suc n) e =
    cc (ap (λ i. row_text (get_or lines i [])) e, window-mod lines (s + 1) (s' + 1) n (omega arith))

-- One row more is the row behind the window.
pub window-suc :
    (lines : List Text) (s n : ℕ)
    → window lines s (suc n) ≡ window lines s n ++ row_at lines (s + n) ∷ []
unfolding window
window-suc lines s zero = ap (λ k. row_at lines k ∷ []) (omega arith)
window-suc lines s (suc n) =
    ap (λ t. row_at lines s ∷ t)
      (window-suc lines (s + 1) n
        ∙ ap (λ k. window lines (s + 1) n ++ row_at lines k ∷ []) (omega arith))

-- A write outside the window is not seen in it.
pub window-set :
    (lines : List Text) (h : ℕ) (row : Text) (s n : ℕ)
    → h < lines_max
    → n < lines_max
    → s % lines_max ≡ (h + lines_max - n) % lines_max
    → window (set lines h row) s n ≡ window lines s n
unfolding window
window-set lines h row s zero hh hn e = refl
window-set lines h row s (suc n) hh hn e = cc (
  ap row_text (get_or-set_ne lines {i = h} {j = s % lines_max} row [] (omega arith)),
  window-set lines h row (s + 1) n hh (omega arith) (omega arith),
)
