-- ===== src/Tests/Logs.antt =====
-- The log at concrete messages.
use spool_gate.Base.{
  ℕ, zero, suc, ◌-◌, ◌≤◌, ◌≡◌, refl, List, [], ◌∷◌, ◌++◌, Text, codes, replicate, arith, All, take,
  length,
}
use spool_gate.Logbuf.{blank, render, printf, clean, newline, lines_max, line_len}
use spool_gate.Logbuf.Clean.{IsPlain}
use spool_gate.Logbuf.Ring.{blank-IsValid, store_all, unlines, held, remember}
use spool_gate.Logbuf.History.{render-newest, newest, kept}
use spool_gate.Logbuf.Concurrent.{Lines, render_under, render_under_lem}
use spool_gate.Logbuf.Print.{printf_long}

-- A colour escape and the line end are dropped.
clean_colour :
    clean (0x1b ∷ codes "[0;32mI (1) wifi" ++ 0x1b ∷ codes "[0m" ++ newline ∷ [])
    ≡ codes "I (1) wifi"
unfolding clean
clean_colour = refl

abbrev messages : List Text
messages = (codes "napt on" ++ newline ∷ []) ∷ [] ∷ codes "uplink up" ∷ []

render-newest_example :
    render (store_all messages blank) [] ≡ unlines (newest lines_max (kept messages))
render-newest_example = render-newest messages

render_under_example :
    Lines [] lines_max
      (render_under (messages ∷ [] ∷ messages ∷ []) (store_all messages blank) lines_max 0 [])
render_under_example = render_under_lem messages (messages ∷ [] ∷ messages ∷ []) []

crosses : ℕ → Text
crosses n = replicate n b'x'

crosses-IsPlain : (n : ℕ) → All IsPlain (crosses n)
unfolding crosses
crosses-IsPlain zero = tt
crosses-IsPlain (suc n) = (ground arith, crosses-IsPlain n)

crosses_long : 127 ≤ length (crosses 200)
unfolding crosses
crosses_long = omega arith

printf_long_example :
    ((printf (crosses 200 ++ newline ∷ []) blank).0 ≡ take (line_len - 1) (crosses 200))
    × (held (printf (crosses 200 ++ newline ∷ []) blank).1
        ≡ remember (take (line_len - 1) (crosses 200)) (held blank))
printf_long_example =
    printf_long (crosses 200) blank blank-IsValid (crosses-IsPlain 200) crosses_long
