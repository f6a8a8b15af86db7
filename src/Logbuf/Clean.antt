-- ===== src/Logbuf/Clean.antt =====
-- What `clean` keeps of a text.
use spool_gate.Base.{
  ℕ, ◌+◌, ◌<◌, ◌≡◌, ◌≢◌, refl, Bool, true, false, not, [], ◌∷◌, arith, ◌==◌, Text, length, All,
}
use spool_gate.Logbuf.{clean, clean_from, line_len, escape_byte, newline}

-- A byte that a kept line may hold.
pub record IsPlain (c : ℕ) : Type 0 where
  pub not_nul : c ≢ 0
  pub not_escape : c ≢ escape_byte
  pub not_return : c ≢ 13
  pub not_newline : c ≢ newline

length-clean_from :
    (esc : Bool) (w : ℕ) (t : Text) → w < line_len → w + length (clean_from esc w t) < line_len
unfolding clean_from
length-clean_from true w [] h = omega arith
length-clean_from false w [] h = omega arith
length-clean_from true w (c ∷ t) h = ground (arith, length-clean_from (not (c == b'm')) w t)
length-clean_from false w (c ∷ t) h = ground (
  arith,
  length-clean_from true w t,
  length-clean_from false w t,
  length-clean_from false (w + 1) t,
)

pub length-clean : (t : Text) → length (clean t) < line_len
unfolding clean
length-clean t = omega (arith, length-clean_from false 0 t (omega arith))

clean_from-IsPlain : (esc : Bool) (w : ℕ) (t : Text) → All IsPlain (clean_from esc w t)
unfolding clean_from
clean_from-IsPlain true w [] = tt
clean_from-IsPlain false w [] = tt
clean_from-IsPlain true w (c ∷ t) = ground (arith, clean_from-IsPlain (not (c == b'm')) w t)
clean_from-IsPlain false w (c ∷ t) = ground (
  arith,
  clean_from-IsPlain true w t,
  clean_from-IsPlain false w t,
  clean_from-IsPlain false (w + 1) t,
)

pub clean-IsPlain : (t : Text) → All IsPlain (clean t)
unfolding clean
clean-IsPlain t = clean_from-IsPlain false 0 t

clean_from-plain :
    (w : ℕ) (t : Text) → All IsPlain t → w + length t < line_len → clean_from false w t ≡ t
unfolding clean_from
clean_from-plain w [] p h = refl
clean_from-plain w (c ∷ t) p h = ground (arith, clean_from-plain (w + 1) t)

-- A line that holds nothing to drop is kept whole.
pub clean-plain : (t : Text) → All IsPlain t → length t < line_len → clean t ≡ t
unfolding clean
clean-plain t p h = clean_from-plain 0 t p (omega arith)

pub clean_idem : (t : Text) → clean (clean t) ≡ clean t
clean_idem t = clean-plain (clean t) (clean-IsPlain t) (length-clean t)
