-- ===== src/Logbuf/Print.antt =====
-- `printf`: what a message does to the serial port and to the ring.
use spool_gate.Base.{
  ℕ, zero, suc, ◌+◌, ◌-◌, ◌<◌, ◌≤◌, ◌≡◌, refl, ap, ◌∙◌, List, [], ◌∷◌, ◌++◌, arith, Text, length,
  take, length-append, length-take, is_empty, All, c_str, false, take_all,
}
use spool_gate.Logbuf.{Log, clean, clean_from, kind, store, line_len, newline, printf, format}
use spool_gate.Logbuf.Clean.{IsPlain, clean-plain}
use spool_gate.Logbuf.Ring.{IsValid, held, remember, remember_message, held-store}

All-take {ℓ κ} : {A : Type ℓ} (P : A → Type κ) (n : ℕ) (xs : List A) → All P xs → All P (take n xs)
All-take P zero xs a = tt
All-take P (suc n) [] a = tt
All-take P (suc n) (x ∷ xs) a = (a.0, All-take P n xs a.1)

c_str-plain : (t : Text) → All IsPlain t → c_str (t ++ newline ∷ []) ≡ t ++ newline ∷ []
unfolding c_str
c_str-plain [] p = refl
c_str-plain (c ∷ t) p = ground (arith, c_str-plain t p.1)

clean_from-newline :
    (w : ℕ) (t : Text)
    → All IsPlain t
    → w + length t < line_len
    → clean_from false w (t ++ newline ∷ []) ≡ t
unfolding clean_from
clean_from-newline w [] p h = ground arith
clean_from-newline w (c ∷ t) p h = ground (arith, clean_from-newline (w + 1) t)

take_short : (n : ℕ) (xs ys : Text) → n ≤ length xs → take n (xs ++ ys) ≡ take n xs
take_short zero xs ys h = refl
take_short (suc n) [] ys h = absurd (omega arith)
take_short (suc n) (x ∷ xs) ys h = ap (λ t. x ∷ t) (take_short n xs ys (omega arith))

format-long :
    (text : Text)
    → All IsPlain text
    → line_len - 1 ≤ length text
    → format (text ++ newline ∷ []) ≡ take (line_len - 1) text
unfolding format
format-long text p h =
    ap (take (line_len - 1)) (c_str-plain text p) ∙ take_short (line_len - 1) text (newline ∷ []) h

format-short :
    (text : Text)
    → All IsPlain text
    → length text < line_len - 1
    → format (text ++ newline ∷ []) ≡ text ++ newline ∷ []
unfolding format
format-short text p h =
    ap (take (line_len - 1)) (c_str-plain text p)
    ∙ take_all (line_len - 1) (text ++ newline ∷ [])
        (omega (arith, length-append text (newline ∷ [])))

clean-newline : (t : Text) → All IsPlain t → length t < line_len → clean (t ++ newline ∷ []) ≡ t
unfolding clean
clean-newline t p h = clean_from-newline 0 t p (omega arith)

-- With a well-formed ring, a line of 1 to 126 plain bytes goes to the serial port with its newline,
-- and the log keeps it whole.
pub printf_short :
    (text : Text) (log : Log)
    → IsValid log
    → All IsPlain text
    → is_empty text ≡ false
    → length text < line_len - 1
    → let (serial, log') = printf (text ++ newline ∷ []) log in
      (serial ≡ text ++ newline ∷ []) × (held log' ≡ remember text (held log))
unfolding printf remember_message
printf_short text log v p ne h = (
  format-short text p h,
  ap (λ b. held (store b log)) (format-short text p h)
      ∙ held-store (text ++ newline ∷ []) log v
      ∙ rw (clean-newline text p (omega arith), ne) refl,
)

format-led :
    (text : Text)
    → All IsPlain text
    → length text < line_len - 2
    → format (newline ∷ (text ++ newline ∷ [])) ≡ newline ∷ (text ++ newline ∷ [])
unfolding format c_str
format-led text p h =
    ap (λ t. take (line_len - 1) (newline ∷ t)) (c_str-plain text p)
    ∙ take_all (line_len - 1) (newline ∷ (text ++ newline ∷ []))
        (omega (arith, length-append text (newline ∷ [])))

clean_led : (t : Text) → clean (newline ∷ t) ≡ clean t
unfolding clean clean_from kind
clean_led t = refl

-- The same of a line with a newline in front as well, of at most 125 bytes: the serial port gets both
-- newlines, and the log keeps neither.
pub printf_led :
    (text : Text) (log : Log)
    → IsValid log
    → All IsPlain text
    → is_empty text ≡ false
    → length text < line_len - 2
    → let (serial, log') = printf (newline ∷ (text ++ newline ∷ [])) log in
      (serial ≡ newline ∷ (text ++ newline ∷ [])) × (held log' ≡ remember text (held log))
unfolding printf remember_message
printf_led text log v p ne h = (
  format-led text p h,
  ap (λ b. held (store b log)) (format-led text p h)
      ∙ held-store (newline ∷ (text ++ newline ∷ [])) log v
      ∙ rw (clean_led (text ++ newline ∷ []), clean-newline text p (omega arith), ne) refl,
)

take-ne : (n : ℕ) (t : Text) → suc n ≤ length t → is_empty (take (suc n) t) ≡ false
take-ne n [] h = absurd (omega arith)
take-ne n (c ∷ t) h = refl

-- With a well-formed ring, a longer line of plain bytes is cut to its first 127 bytes, and its
-- newline goes to neither the
-- serial port nor the log.
pub printf_long :
    (text : Text) (log : Log)
    → IsValid log
    → All IsPlain text
    → line_len - 1 ≤ length text
    → let (serial, log') = printf (text ++ newline ∷ []) log in
      (serial ≡ take (line_len - 1) text)
      × (held log' ≡ remember (take (line_len - 1) text) (held log))
unfolding printf remember_message
printf_long text log v p h = (
  format-long text p h,
  ap (λ b. held (store b log)) (format-long text p h)
      ∙ held-store (take (line_len - 1) text) log v
      ∙ rw (clean_cut, take-ne 126 text h) refl,
)
  where
    clean_cut : clean (take (line_len - 1) text) ≡ take (line_len - 1) text
    clean_cut =
        clean-plain (take (line_len - 1) text) (All-take IsPlain (line_len - 1) text p)
          (omega (arith, length-take (line_len - 1) text))
