-- ===== src/Logbuf/Ring.antt =====
-- The ring against the list of the lines that it holds, oldest first.
use spool_gate.Base.{
  ℕ, zero, suc, ◌+◌, ◌-◌, ◌%◌, ◌<◌, ◌≤◌, ◌≡◌, refl, ap, ◌∙◌, List, [], ◌∷◌, ◌++◌, arith, Text,
  length, set, get_or, replicate, length-set, All, ltb, if◌then◌else◌, is_empty, drop,
  get_or-set_self,
}
use mathlib.Core.List.{append-nil, append_assoc}
use spool_gate.Logbuf.{
  Log, blank, clean, store, put, overlay, row_text, render, render_from, lines_max, line_len,
  newline,
}
use spool_gate.Logbuf.Clean.{IsPlain, clean-IsPlain, length-clean}
use spool_gate.Logbuf.Rows.{row_text-overlay, length-overlay, All-set, All-get_or}
use spool_gate.Logbuf.Window.{row_at, window, length-window, window-mod, window-suc, window-set}

abbrev pub IsRow : Text → Type 0
IsRow row = length row ≡ line_len

pub record IsValid (log : Log) : Type 0 where
  pub rows : length log.lines ≡ lines_max
  pub row_lengths : All IsRow log.lines
  pub head_in : log.head < lines_max
  pub count_in : log.count ≤ lines_max

-- The position of the oldest line.
abbrev pub oldest : Log → ℕ
oldest log = log.head + lines_max - log.count

-- The lines held, oldest first.
abbrev pub held : Log → List Text
held log = window log.lines (oldest log) log.count

-- The specification: a list that takes a line at its end and keeps at most `lines_max`.
unfoldable pub remember : Text → List Text → List Text
remember line ls = if ltb (length ls) lines_max then ls ++ line ∷ [] else drop 1 ls ++ line ∷ []

All-replicate-IsRow : (n : ℕ) → All IsRow (replicate n (replicate line_len 0))
All-replicate-IsRow zero = tt
All-replicate-IsRow (suc n) = (refl, All-replicate-IsRow n)

pub blank-IsValid : IsValid blank
unfolding blank
blank-IsValid = record {
  rows = refl;
  row_lengths = All-replicate-IsRow lines_max;
  head_in = omega arith;
  count_in = omega arith;
}

put-IsValid :
    (line : Text) (log : Log) → length line < line_len → IsValid log → IsValid (put line log)
unfolding put
put-IsValid line log h v = record {
  rows = length-set log.lines log.head (overlay line (get_or log.lines log.head [])) ∙ v.rows;
  row_lengths =
      All-set IsRow log.lines log.head (overlay line (get_or log.lines log.head [])) v.row_lengths (
        length-overlay line (get_or log.lines log.head [])
          (All-get_or IsRow log.lines log.head [] (omega arith) v.row_lengths) h);
  head_in = omega arith;
  count_in = ground arith;
}

-- The row that was written last is the line, at any position that names it.
row_at-put :
    (line : Text) (log : Log) (k : ℕ)
    → IsValid log
    → All IsPlain line
    → length line < line_len
    → k % lines_max ≡ log.head
    → row_at (put line log).lines k ≡ line
unfolding put
row_at-put line log k v p h e =
    ap (λ i. row_text (get_or (put line log).lines i [])) e
    ∙ ap row_text (
        get_or-set_self log.lines log.head (overlay line (get_or log.lines log.head [])) []
          (omega arith))
    ∙ row_text-overlay line (get_or log.lines log.head []) p h

held-put-room :
    (line : Text) (log : Log)
    → IsValid log
    → All IsPlain line
    → length line < line_len
    → log.count < lines_max
    → held (put line log) ≡ held log ++ line ∷ []
unfolding put
held-put-room line log v p h room =
    ap (window lines' (oldest (put line log))) (ground arith)
    ∙ window-mod lines' (oldest (put line log)) (oldest log) (suc log.count) (ground arith)
    ∙ window-suc lines' (oldest log) log.count
    ∙ cc (
      window-set log.lines log.head row (oldest log) log.count v.head_in room (omega arith),
      row_at-put line log (oldest log + log.count) v p h (omega arith),
    )
  where
    row : Text
    row = overlay line (get_or log.lines log.head [])

    lines' : List Text
    lines' = set log.lines log.head row

window_tail :
    (lines : List Text) (s n : ℕ) → drop 1 (window lines s (suc n)) ≡ window lines (s + 1) n
unfolding window
window_tail lines s n = refl

held-put-full :
    (line : Text) (log : Log)
    → IsValid log
    → All IsPlain line
    → length line < line_len
    → log.count ≡ lines_max
    → held (put line log) ≡ drop 1 (held log) ++ line ∷ []
unfolding put
held-put-full line log v p h full =
    ap (window lines' (oldest (put line log))) (ground arith)
    ∙ window-mod lines' (oldest (put line log)) (oldest log + 1) (suc 95) (ground arith)
    ∙ window-suc lines' (oldest log + 1) 95
    ∙ cc (
      window-set log.lines log.head row (oldest log + 1) 95 v.head_in (omega arith) (omega arith),
      row_at-put line log (oldest log + 1 + 95) v p h (omega arith),
      ap (window log.lines (oldest log)) full,
      window_tail log.lines (oldest log) 95,
    )
  where
    row : Text
    row = overlay line (get_or log.lines log.head [])

    lines' : List Text
    lines' = set log.lines log.head row

-- What a message leaves in the list of lines: nothing, if no byte of it is kept.
unfoldable pub remember_message : Text → List Text → List Text
remember_message text ls = if is_empty (clean text) then ls else remember (clean text) ls

-- `store` keeps the ring valid.
pub store-IsValid : (text : Text) (log : Log) → IsValid log → IsValid (store text log)
unfolding store
store-IsValid text log v = ground (arith, put-IsValid (clean text) log (length-clean text) v)

-- `store` is `remember_message` on the lines held.
pub held-store :
    (text : Text) (log : Log)
    → IsValid log
    → held (store text log) ≡ remember_message text (held log)
unfolding store remember_message remember
held-store text log v = ground (
  arith,
  length-window log.lines (oldest log) log.count,
  held-put-room (clean text) log v (clean-IsPlain text) (length-clean text),
  held-put-full (clean text) log v (clean-IsPlain text) (length-clean text),
)

unfoldable pub store_all : List Text → Log → Log
store_all [] log = log
store_all (t ∷ ts) log = store_all ts (store t log)

unfoldable pub remember_all : List Text → List Text → List Text
remember_all [] ls = ls
remember_all (t ∷ ts) ls = remember_all ts (remember_message t ls)

pub store_all-IsValid : (ts : List Text) (log : Log) → IsValid log → IsValid (store_all ts log)
unfolding store_all
store_all-IsValid [] log v = v
store_all-IsValid (t ∷ ts) log v = store_all-IsValid ts (store t log) (store-IsValid t log v)

pub held-store_all :
    (ts : List Text) (log : Log)
    → IsValid log
    → held (store_all ts log) ≡ remember_all ts (held log)
unfolding store_all remember_all
held-store_all [] log v = refl
held-store_all (t ∷ ts) log v =
    held-store_all ts (store t log) (store-IsValid t log v)
    ∙ ap (remember_all ts) (held-store t log v)

-- Each line with a newline behind it.
unfoldable pub unlines : List Text → Text
unlines [] = []
unlines (l ∷ ls) = l ++ newline ∷ unlines ls

render_from-window :
    (log : Log) (rounds i : ℕ) (out : Text) (n : ℕ)
    → i + n ≡ log.count
    → n ≤ rounds
    → render_from log rounds i out ≡ out ++ unlines (window log.lines (oldest log + i) n)
unfolding render_from unlines window
render_from-window log zero i out zero e h = rw append-nil
render_from-window log zero i out (suc n) e h = absurd (omega arith)
render_from-window log (suc rounds) i out zero e h = ground (arith, append-nil out)
render_from-window log (suc rounds) i out (suc n) e h = ground (
  arith,
  render_from-window log rounds (i + 1) ((out ++ line) ++ newline ∷ []) n (omega arith)
      (omega arith),
  ap (λ k. unlines (window log.lines k n)) add_assoc',
  append_assoc (out ++ line) (newline ∷ []) (unlines (window log.lines (oldest log + i + 1) n)),
  append_assoc out line (newline ∷ unlines (window log.lines (oldest log + i + 1) n)),
)
  where
    line : Text
    line = row_at log.lines (oldest log + i)

    add_assoc' : oldest log + (i + 1) ≡ oldest log + i + 1
    add_assoc' = omega arith

-- `render` appends every line held, oldest first, each with one newline.
pub render-held :
    (log : Log) (out : Text) → IsValid log → render log out ≡ out ++ unlines (held log)
unfolding render
render-held log out v =
    render_from-window log lines_max 0 out log.count (omega arith) v.count_in
    ∙ ap (λ k. out ++ unlines (window log.lines k log.count)) (omega arith)

held-blank : held blank ≡ []
unfolding blank window
held-blank = refl

-- After any messages from boot on, the page of the portal shows what the list of lines holds.
pub render-store_all :
    (ts : List Text) → render (store_all ts blank) [] ≡ unlines (remember_all ts [])
render-store_all ts =
    render-held (store_all ts blank) [] (store_all-IsValid ts blank blank-IsValid)
    ∙ ap unlines (held-store_all ts blank blank-IsValid ∙ ap (remember_all ts) held-blank)
