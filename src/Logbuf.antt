-- ===== src/Logbuf.antt =====
-- src/logbuf.h and src/logbuf.cpp: the in-memory ring of log lines. The ring is a list of rows of
-- `line_len` bytes; a function that updates it returns the new one. What the formatter of the C
-- library makes of a format and its arguments is the argument `message`. Every access to the ring
-- stands in one critical section, so a section is one step here.
pub mod Clean
mod Rows
mod Window
pub mod Ring
pub mod History
pub mod Concurrent
pub mod Print
pub mod Pieces
use spool_gate.Base.{
  ℕ, zero, suc, ◌+◌, ◌-◌, ◌%◌, ◌<◌, ◌≤◌, ◌≡◌, Bool, true, false, not, ◌||◌, List, [], ◌∷◌, ◌++◌,
  ltb, leb, ◌==◌, if◌then◌else◌, Text, c_str, is_empty, length, set, get_or, take, drop, replicate,
}

abbrev pub lines_max : ℕ
lines_max = 96

abbrev pub line_len : ℕ
line_len = 128

abbrev pub escape_byte : ℕ
escape_byte = 0x1b

abbrev pub newline : ℕ
newline = 10

pub record Log : Type 0 where
  pub lines : List Text
  pub head : ℕ  -- next slot to write
  pub count : ℕ  -- lines held, saturating at `lines_max`

-- The static storage at boot: all bytes are 0.
pub blank : Log
blank = record { lines = replicate lines_max (replicate line_len 0); head = 0; count = 0 }

-- What the loop of `store` does at one byte, with `w` bytes kept.
pub data Kind : Type 0 where
  stop begin_escape drop_byte keep_byte : Kind

unfoldable pub kind : ℕ → ℕ → Kind
kind w c =
    if c == 0 || leb (line_len - 1) w
    then stop
    else (if c == escape_byte
        then begin_escape
        else (if c == 13 || c == newline then drop_byte else keep_byte))

-- The `for` loop of `store`, from `text[r]` on. The flag says that the inner `while`, which skips
-- to the `m` of an escape, is running; it ends the outer loop at a NUL.
unfoldable pub clean_from : Bool → ℕ → Text → Text
unfolding kind
clean_from _ w [] = []
clean_from true w (c ∷ t) = elim (c == 0) [ true ↦ [] | false ↦ clean_from (not (c == b'm')) w t ]
clean_from false w (c ∷ t) = elim (kind w c) [
  | stop ↦ []
  | begin_escape ↦ clean_from true w t
  | drop_byte ↦ clean_from false w t
  | keep_byte ↦ c ∷ clean_from false (w + 1) t
]

unfoldable pub clean : Text → Text
unfolding clean_from
clean text = clean_from false 0 text

-- `memcpy(row, text, w + 1)`: the terminator is copied too, and the bytes behind it stay.
pub overlay : Text → Text → Text
overlay text row = (text ++ 0 ∷ []) ++ drop (length text + 1) row

pub put : Text → Log → Log
unfolding overlay
put line log = record log {
  lines = set log.lines log.head (overlay line (get_or log.lines log.head []));
  head = (log.head + 1) % lines_max;
  count = if ltb log.count lines_max then log.count + 1 else log.count;
}

pub store : Text → Log → Log
unfolding put
store text log = let line = clean text in if is_empty line then log else put line log

-- `vsnprintf` into a buffer of `line_len` bytes keeps what fits before the terminator.
pub format : Text → Text
format message = take (line_len - 1) (c_str message)

-- `printf`: what goes to the serial port, and the ring after it.
pub printf : Text → Log → Text × Log
printf message log = let buf = format message in (buf, store buf log)

-- `hookVprintf`, the sink of the framework's own log: the message, if it is not empty, is kept, and
-- the call is handed on to the sink before it, which gets the whole message.
pub hook_vprintf : Text → Log → Text × Log
hook_vprintf message log =
    (message, if ltb 0 (length message) then store (format message) log else log)

-- The row that the `i`-th round of `render` copies.
pub row_index : Log → ℕ → ℕ
row_index log i = (log.head + lines_max - log.count + i) % lines_max

-- `line[kLineLen - 1] = '\0'`, and the C string that is left.
pub row_text : Text → Text
row_text row = c_str (set row (line_len - 1) 0)

-- The loop of `render`, with the rounds that are left.
pub render_from : Log → ℕ → ℕ → Text → Text
unfolding row_index row_text
render_from log zero i out = out
render_from log (suc rounds) i out = elim (leb log.count i) [
  | true ↦ out
  | false ↦
      render_from log rounds (i + 1)
        ((out ++ row_text (get_or log.lines (row_index log i) [])) ++ newline ∷ [])
]

pub render : Log → Text → Text
unfolding render_from
render log out = render_from log lines_max 0 out
