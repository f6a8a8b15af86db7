-- ===== src/Base/Decimal.antt =====
-- Decimal numbers: signed printing, and a reader of digits with the proof that it reads a print back.
use Prim.Native.Nat.{ℕ, zero, suc, ◌+◌, ◌-◌, ◌*◌, ◌/◌, ◌%◌, ◌<◌}
use mathlib.Core.Path.{◌≡◌, refl, ap, ◌∙◌}
use mathlib.Core.Logic.{inl, inr}
use mathlib.Core.Bool.{Bool, true, false, ◌&&◌}
use mathlib.Core.List.{[], ◌∷◌, ◌++◌, append_assoc}
use native.Mathlib.Omega.{arith}
use spool_gate.Base.Tests.{ltb, leb, if◌then◌else◌, Bool-cases}
use spool_gate.Base.Lists.{length, replicate}
use spool_gate.Base.Int.{ℤ, pos, negsuc}
use spool_gate.Base.Bytes.{Text, decimal, decimal_from}

-- `%d`
unfoldable pub signed_decimal : ℤ → Text
signed_decimal (pos n) = decimal n
signed_decimal (negsuc n) = 45 ∷ decimal (n + 1)

-- `%<width>lu`
unfoldable pub padded : ℕ → ℕ → Text
padded width n = replicate (width - length (decimal n)) 32 ++ decimal n

-- `[%10lu] `, which log lines start with
unfoldable pub stamped : ℕ → Text
stamped now = 91 ∷ (padded 10 now ++ 93 ∷ 32 ∷ [])

abbrev pub is_digit : ℕ → Bool
is_digit c = leb 48 c && ltb c 58

abbrev pub starts_digit : Text → Bool
starts_digit [] = false
starts_digit (c ∷ t) = is_digit c

-- The number that the digits at the front stand for behind `n`, and the rest of the text.
unfoldable pub read_digits : ℕ → Text → ℕ × Text
read_digits n [] = (n, [])
read_digits n (c ∷ t) =
    let more = read_digits (n * 10 + (c - 48)) t in if is_digit c then more else (n, c ∷ t)

abbrev power_of_ten : ℕ → ℕ
power_of_ten zero = 1
power_of_ten (suc f) = 10 * power_of_ten f

read_digits-step :
    (n d m : ℕ) (t : Text)
    → d < 10
    → n * 10 + d ≡ m
    → read_digits n ((48 + d) ∷ t) ≡ read_digits m t
unfolding read_digits
read_digits-step n d m t l e = ground arith

read_digits-decimal_from :
    (f n : ℕ) (t : Text)
    → n < power_of_ten f
    → read_digits 0 (decimal_from f n ++ t) ≡ read_digits n t
unfolding decimal_from
read_digits-decimal_from zero n t l = ap (λ k. read_digits k t) (omega arith)
read_digits-decimal_from (suc f) n t l = elim (Bool-cases (ltb n 10)) [
  | inl small ↦ rw small (read_digits-step 0 n n t (ground arith) (omega arith))
  | inr large ↦ rw large (
      ap (read_digits 0) (append_assoc (decimal_from f (n / 10)) ((48 + n % 10) ∷ []) t)
      ∙ (read_digits-decimal_from f (n / 10) ((48 + n % 10) ∷ t) (omega arith)
          ∙ read_digits-step (n / 10) (n % 10) n t (omega arith) (omega arith)))
]

starts_digit-append : (t u : Text) → starts_digit t ≡ true → starts_digit (t ++ u) ≡ true
starts_digit-append [] u h = absurd (ground arith)
starts_digit-append (c ∷ t) u h = h

starts_digit-decimal_from : (f n : ℕ) → starts_digit (decimal_from (suc f) n) ≡ true
unfolding decimal_from
starts_digit-decimal_from zero n = ground arith
starts_digit-decimal_from (suc f) n = elim (Bool-cases (ltb n 10)) [
  | inl small ↦ rw small (ground arith)
  | inr large ↦
      rw large (
        starts_digit-append (decimal_from (suc f) (n / 10)) _
          (starts_digit-decimal_from f (n / 10)))
]

pub starts_digit-decimal : (n : ℕ) (t : Text) → starts_digit (decimal n ++ t) ≡ true
unfolding decimal
starts_digit-decimal n t = starts_digit-append (decimal_from 10 n) t (starts_digit-decimal_from 9 n)

-- A printed number is read back, up to the first byte behind it, which is no digit.
pub read_digits-decimal :
    (n c : ℕ) (t : Text)
    → n < 4294967296
    → is_digit c ≡ false
    → read_digits 0 (decimal n ++ c ∷ t) ≡ (n, c ∷ t)
unfolding decimal read_digits
read_digits-decimal n c t l d = read_digits-decimal_from 10 n (c ∷ t) (omega arith) ∙ rw d refl
