-- ===== src/Logbuf/History.antt =====
-- The log against its whole history: the ring holds the newest lines that were not empty.
use spool_gate.Base.{
  ℕ, zero, suc, ◌-◌, ◌≤◌, ◌≡◌, refl, ap, ◌∙◌, sym, List, [], ◌∷◌, ◌++◌, arith, Text, length, drop,
  length-append, length-drop, is_empty, if◌then◌else◌,
}
use mathlib.Core.List.{append-nil, append_assoc}
use spool_gate.Logbuf.{blank, clean, lines_max, render}
use spool_gate.Logbuf.Ring.{
  remember, remember_message, remember_all, store_all, unlines, render-store_all,
}

-- The cleaned lines that are worth a row.
pub kept : List Text → List Text
kept [] = []
kept (t ∷ ts) = if is_empty (clean t) then kept ts else clean t ∷ kept ts

-- The last `n` entries of a list.
pub newest {ℓ} : {A : Type ℓ} → ℕ → List A → List A
newest n xs = drop (length xs - n) xs

drop-append {ℓ} :
    {A : Type ℓ} (n : ℕ) (xs ys : List A) → n ≤ length xs → drop n (xs ++ ys) ≡ drop n xs ++ ys
drop-append zero xs ys h = refl
drop-append (suc n) [] ys h = absurd (omega arith)
drop-append (suc n) (x ∷ xs) ys h = drop-append n xs ys (omega arith)

drop-drop {ℓ} : {A : Type ℓ} (n : ℕ) (xs : List A) → drop 1 (drop n xs) ≡ drop (suc n) xs
drop-drop zero xs = refl
drop-drop (suc n) [] = refl
drop-drop (suc n) (x ∷ xs) = drop-drop n xs

remember-newest :
    (line : Text) (xs : List Text)
    → remember line (newest lines_max xs) ≡ newest lines_max (xs ++ line ∷ [])
unfolding remember newest
remember-newest line xs = ground (
  arith,
  length-append xs (line ∷ []),
  length-drop (length xs - lines_max) xs,
  drop-append (length xs - lines_max) xs (line ∷ []),
  drop-append (suc (length xs - lines_max)) xs (line ∷ []),
  drop-drop (length xs - lines_max) xs,
)

remember_all-newest :
    (ts xs : List Text) → remember_all ts (newest lines_max xs) ≡ newest lines_max (xs ++ kept ts)
unfolding remember_all remember_message kept
remember_all-newest [] xs = ap (newest lines_max) (sym (append-nil xs))
remember_all-newest (t ∷ ts) xs = ground (
  arith,
  remember-newest (clean t) xs,
  remember_all-newest ts xs,
  remember_all-newest ts (xs ++ clean t ∷ []),
  append_assoc xs (clean t ∷ []) (kept ts),
)

-- Whatever was logged since boot, the rendered log is the newest 96 non-empty cleaned lines, in
-- order, each ended by one newline.
pub render-newest :
    (ts : List Text) → render (store_all ts blank) [] ≡ unlines (newest lines_max (kept ts))
unfolding newest
render-newest ts = render-store_all ts ∙ ap unlines (remember_all-newest ts [])
