-- ===== src/Logbuf/Concurrent.antt =====
-- `render` while other tasks log. Each round of its loop reads the ring in a critical section of
-- its own, so messages of other tasks may be stored between two rounds.
use spool_gate.Base.{
  ℕ, zero, suc, ◌+◌, ◌<◌, ◌≤◌, ◌≡◌, refl, sym, List, [], ◌∷◌, ◌++◌, arith, Text, length, All, leb,
  Bool-cases, inl, inr, true, false, get_or, replicate, is_empty, c_str,
}
use mathlib.Core.List.{append-nil, append_assoc}
use spool_gate.Logbuf.{
  Log, blank, clean, store, put, overlay, row_text, row_index, render_from, lines_max, line_len,
  newline,
}
use spool_gate.Logbuf.Clean.{IsPlain, clean-IsPlain, length-clean}
use spool_gate.Logbuf.Rows.{row_text-overlay, All-set, All-get_or}
use spool_gate.Logbuf.Ring.{IsValid, store_all, store-IsValid, unlines, blank-IsValid}

-- What other tasks store before each round; nothing once the list is used up.
abbrev pub next_batch : List (List Text) → List Text
next_batch [] = []
next_batch (b ∷ bs) = b

abbrev pub later_batches : List (List Text) → List (List Text)
later_batches [] = []
later_batches (b ∷ bs) = bs

-- The loop of `render`, with the rounds left and the messages that come in between.
pub render_under : List (List Text) → Log → ℕ → ℕ → Text → Text
unfolding row_index
render_under batches log zero i out = out
render_under batches log (suc rounds) i out =
    let log' = store_all (next_batch batches) log in
    let rest =
      render_under (later_batches batches) log' rounds (i + 1)
        ((out ++ row_text (get_or log'.lines (row_index log' i) [])) ++ newline ∷ []) in
    elim (leb log'.count i) [ true ↦ out | false ↦ rest ]

-- A line as `store` leaves it: no control byte that ends or colours a line, and short enough.
abbrev pub IsLine : Text → Type 0
IsLine l = All IsPlain l × (length l < line_len)

abbrev pub Readable : Text → Type 0
Readable row = IsLine (row_text row)

abbrev pub AllReadable : Log → Type 0
AllReadable log = All Readable log.lines

put-Readable :
    (line : Text) (log : Log)
    → IsValid log
    → IsLine line
    → AllReadable log
    → AllReadable (put line log)
unfolding put
put-Readable line log v l a =
    All-set Readable log.lines log.head (overlay line row) a
      (rw (row_text-overlay line row l.0 l.1) l)
  where
    row : Text
    row = get_or log.lines log.head []

store-Readable :
    (text : Text) (log : Log) → IsValid log → AllReadable log → AllReadable (store text log)
unfolding store
store-Readable text log v a = elim (Bool-cases (is_empty (clean text))) [
  | inl e ↦ rw e a
  | inr e ↦ rw e (put-Readable (clean text) log v (clean-IsPlain text, length-clean text) a)
]

-- What every critical section finds.
record IsSound (log : Log) : Type 0 where
  valid : IsValid log
  readable : AllReadable log

store_all-IsSound : (ts : List Text) (log : Log) → IsSound log → IsSound (store_all ts log)
unfolding store_all
store_all-IsSound [] log s = s
store_all-IsSound (t ∷ ts) log s = store_all-IsSound ts (store t log) (record {
  valid = store-IsValid t log s.valid;
  readable = store-Readable t log s.valid s.readable;
})

blank-IsSound : IsSound blank
unfolding blank row_text c_str
blank-IsSound = record { valid = blank-IsValid; readable = readable 96 }
  where
    readable : (n : ℕ) → All Readable (replicate n (replicate line_len 0))
    readable zero = tt
    readable (suc n) = ((tt, omega arith), readable n)

row-IsLine :
    (log : Log) (i : ℕ) → IsSound log → IsLine (row_text (get_or log.lines (row_index log i) []))
unfolding row_index
row-IsLine log i s =
    All-get_or Readable log.lines (row_index log i) [] (omega (arith, s.valid.rows)) s.readable

-- The text is the old one and whole lines, as many as there were rounds at most.
abbrev pub Lines : Text → ℕ → Text → Type 0
Lines out rounds text =
    (ls : List Text) × (text ≡ out ++ unlines ls) × All IsLine ls × (length ls ≤ rounds)

Lines-cons :
    (out line text : Text) (rounds : ℕ)
    → IsLine line
    → Lines ((out ++ line) ++ newline ∷ []) rounds text
    → Lines out (suc rounds) text
unfolding unlines
Lines-cons out line text rounds l (ls, e, a, n) = (
  line ∷ ls,
  cc (
    append_assoc (out ++ line) (newline ∷ []) (unlines ls),
    append_assoc out line (newline ∷ unlines ls),
  ),
  (l, a),
  omega arith,
)

render_under-Lines :
    (batches : List (List Text)) (log : Log) (rounds i : ℕ) (out : Text)
    → IsSound log
    → Lines out rounds (render_under batches log rounds i out)
unfolding render_under unlines
render_under-Lines batches log zero i out s = ([], sym (append-nil out), tt, omega arith)
render_under-Lines batches log (suc rounds) i out s =
    elim (leb log'.count i)
      as (λ b. Lines out (suc rounds) (elim b [ true ↦ out | false ↦ rest ])) [
        | true ↦ ([], sym (append-nil out), tt, omega arith)
        | false ↦ Lines-cons out line rest rounds (row-IsLine log' i s') (
            render_under-Lines (later_batches batches) log' rounds (i + 1)
              ((out ++ line) ++ newline ∷ []) s')
      ]
  where
    log' : Log
    log' = store_all (next_batch batches) log

    s' : IsSound log'
    s' = store_all-IsSound (next_batch batches) log s

    line : Text
    line = row_text (get_or log'.lines (row_index log' i) [])

    rest : Text
    rest = render_under (later_batches batches) log' rounds (i + 1) ((out ++ line) ++ newline ∷ [])

-- Whatever other tasks log before and between the rounds of a `render`, it appends whole lines only,
-- at most 96 of them: none is torn, holds a NUL, an escape, a carriage return or a newline, or is
-- longer than a row.
pub render_under_lem :
    (before : List Text) (batches : List (List Text)) (out : Text)
    → Lines out lines_max (render_under batches (store_all before blank) lines_max 0 out)
render_under_lem before batches out =
    render_under-Lines batches (store_all before blank) lines_max 0 out
      (store_all-IsSound before blank blank-IsSound)

-- With nothing stored in between it is `render`.
render_under-quiet :
    (log : Log) (rounds i : ℕ) (out : Text)
    → render_under [] log rounds i out ≡ render_from log rounds i out
unfolding render_under render_from store_all
render_under-quiet log zero i out = refl
render_under-quiet log (suc rounds) i out = ground (
  arith,
  render_under-quiet log rounds (i + 1)
      ((out ++ row_text (get_or log.lines (row_index log i) [])) ++ newline ∷ []),
)
