-- ===== src/Logbuf/Pieces.antt =====
-- Pieces of a log line: how long they are at most, and that they hold no control byte.
use spool_gate.Base.{
  ℕ, zero, suc, ◌+◌, ◌-◌, ◌/◌, ◌%◌, ◌≤◌, ◌≡◌, refl, inl, inr, Bool, true, ◌&&◌, [], ◌∷◌, ◌++◌, Text,
  decimal, decimal_from, signed_decimal, stamped, padded, pos, negsuc, ℤ, arith, length,
  length-append, length-take, length-replicate, replicate, take, All, ltb, leb, Bool-cases,
}
use spool_gate.Logbuf.Clean.{IsPlain}

-- A byte that a kept line may hold, as a test.
abbrev plain_byte : ℕ → Bool
plain_byte c = leb 32 c

abbrev pub is_plain_text : Text → Bool
is_plain_text [] = true
is_plain_text (c ∷ t) = plain_byte c && is_plain_text t

pub is_plain_text-IsPlain : (t : Text) → is_plain_text t ≡ true → All IsPlain t
is_plain_text-IsPlain [] p = tt
is_plain_text-IsPlain (c ∷ t) p = (
  record {
    not_nul = λ e. ground arith;
    not_escape = λ e. ground arith;
    not_return = λ e. ground arith;
    not_newline = λ e. ground arith;
  },
  is_plain_text-IsPlain t (ground arith),
)

-- A piece of a line: at most `n` bytes, all of them plain.
pub record IsPiece (n : ℕ) (t : Text) : Type 0 where
  pub bound : length t ≤ n
  pub plain : is_plain_text t ≡ true

pub is_plain_text-append :
    (t u : Text) → is_plain_text t ≡ true → is_plain_text u ≡ true → is_plain_text (t ++ u) ≡ true
is_plain_text-append [] u p q = q
is_plain_text-append (c ∷ t) u p q = ground (arith, is_plain_text-append t u)

pub append-IsPiece : (m n : ℕ) (t u : Text) → IsPiece m t → IsPiece n u → IsPiece (m + n) (t ++ u)
append-IsPiece m n t u p q = record {
  bound = omega (arith, length-append t u, p.bound, q.bound);
  plain = is_plain_text-append t u p.plain q.plain;
}

decimal_from-IsPiece : (f n : ℕ) → IsPiece f (decimal_from f n)
unfolding decimal_from
decimal_from-IsPiece zero n = record { bound = omega arith; plain = refl }
decimal_from-IsPiece (suc f) n = elim (Bool-cases (ltb n 10)) [
  | inl small ↦ rw small (record { bound = omega arith; plain = ground arith })
  | inr large ↦ rw large (wider (decimal_from-IsPiece f (n / 10)))
]
  where
    wider :
        IsPiece f (decimal_from f (n / 10))
        → IsPiece (suc f) (decimal_from f (n / 10) ++ (48 + n % 10) ∷ [])
    wider p =
        let q =
          append-IsPiece f 1 (decimal_from f (n / 10)) ((48 + n % 10) ∷ []) p
            (record { bound = omega arith; plain = ground arith }) in
        record { bound = omega (arith, q.bound); plain = q.plain }

pub decimal-IsPiece : (n : ℕ) → IsPiece 10 (decimal n)
unfolding decimal
decimal-IsPiece n = decimal_from-IsPiece 10 n

pub signed-IsPiece : (z : ℤ) → IsPiece 11 (signed_decimal z)
unfolding signed_decimal
signed-IsPiece (pos n) =
    let p = decimal-IsPiece n in record { bound = omega (arith, p.bound); plain = p.plain }
signed-IsPiece (negsuc n) =
    let p = decimal-IsPiece (n + 1) in record { bound = omega (arith, p.bound); plain = p.plain }

spaces_plain : (n : ℕ) → is_plain_text (replicate n 32) ≡ true
spaces_plain zero = refl
spaces_plain (suc n) = spaces_plain n

pub stamped-IsPiece : (now : ℕ) → IsPiece 13 (stamped now)
unfolding stamped padded
stamped-IsPiece now =
    let p = decimal-IsPiece now in
    let blanks = replicate (10 - length (decimal now)) 32 in
    record {
      bound = omega (
        arith,
        p.bound,
        length-append blanks (decimal now),
        length-append (blanks ++ decimal now) (93 ∷ 32 ∷ []),
        length-replicate {A = ℕ} (10 - length (decimal now)) 32,
      );
      plain =
          is_plain_text-append (blanks ++ decimal now) (93 ∷ 32 ∷ [])
            (is_plain_text-append blanks (decimal now) (spaces_plain (10 - length (decimal now)))
              p.plain)
            refl;
    }

pub literal : (n : ℕ) (t : Text) → leb (length t) n ≡ true → is_plain_text t ≡ true → IsPiece n t
literal n t l p = record { bound = ground arith; plain = p }

pub is_plain_text-take :
    (n : ℕ) (t : Text) → is_plain_text t ≡ true → is_plain_text (take n t) ≡ true
is_plain_text-take zero t p = refl
is_plain_text-take (suc n) [] p = refl
is_plain_text-take (suc n) (c ∷ t) p = ground (arith, is_plain_text-take n t)

pub take_bound : (n : ℕ) (t : Text) → length (take n t) ≤ n
take_bound n t = omega (arith, length-take n t)
