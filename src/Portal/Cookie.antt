-- ===== src/Portal/Cookie.antt =====
-- The session token, and the cookie that carries it.
use Prim.Native.Nat.{bit_and, bit_and-bitwise, digits, min, ◌/◌}
use spool_gate.Base.{
  ℕ, zero, suc, ◌+◌, ◌≤◌, ◌<◌, ◌≡◌, refl, ap, ◌∙◌, Bool, true, false, ◌&&◌, ◌||◌, none, some, [],
  ◌∷◌, ◌++◌, Text, codes, leb, ◌==◌, if◌then◌else◌, arith, take, length, get_or,
}
use spool_gate.Portal.{Strings, first_index, is_trimmed, ends_blank}
use spool_gate.Portal.Access.{make_token, token_from, hex, cut_semi, session_of}

-- A digit of a token: 0 to 9 or a to f.
abbrev pub is_hex : ℕ → Bool
is_hex c = (leb 48 c && leb c 57) || (leb 97 c && leb c 102)

abbrev pub all_hex : Text → Bool
all_hex [] = true
all_hex (c ∷ t) = if is_hex c then all_hex t else false

digits-below : (n a b : ℕ) → digits (λ b. zero) min n a b ≤ b
digits-below zero a b = omega arith
digits-below (suc n) zero b = omega arith
digits-below (suc n) (suc a) b = omega (arith, digits-below n (suc a / 2) (b / 2))

bit_and-below : (n : ℕ) → bit_and n 0x0F < 16
bit_and-below n = omega (arith, bit_and-bitwise n 15, digits-below n n 15)

all_hex-get_or : (t : Text) (i : ℕ) → all_hex t ≡ true → i < length t → is_hex (get_or t i 0) ≡ true
all_hex-get_or [] i h l = absurd (omega arith)
all_hex-get_or (c ∷ t) zero h l = ground arith
all_hex-get_or (c ∷ t) (suc i) h l = all_hex-get_or t i (ground arith) (omega arith)

token_from-IsHex :
    (random : ℕ → ℕ) (i n : ℕ)
    → (length (token_from random i n) ≡ n) × (all_hex (token_from random i n) ≡ true)
unfolding token_from
token_from-IsHex random i zero = (refl, refl)
token_from-IsHex random i (suc n) =
    let (len, rest) = token_from-IsHex random (i + 1) n in
    let digit = all_hex-get_or hex (bit_and (random i) 0x0F) refl (bit_and-below (random i)) in
    (ap suc len, simp (digit, rest))

-- A token is 32 hexadecimal digits, whatever the random words are: the index never leaves the table.
pub make_token-IsHex :
    (random : ℕ → ℕ) → (length (make_token random) ≡ 32) × (all_hex (make_token random) ≡ true)
unfolding make_token
make_token-IsHex random = token_from-IsHex random 0 32

ends_blank-all_hex : (t : Text) → all_hex t ≡ true → ends_blank t ≡ false
ends_blank-all_hex [] h = refl
ends_blank-all_hex (c ∷ []) h = ground arith
ends_blank-all_hex (c ∷ d ∷ t) h = ends_blank-all_hex (d ∷ t) (ground arith)

all_hex-is_trimmed : (t : Text) → all_hex t ≡ true → is_trimmed t ≡ true
all_hex-is_trimmed [] h = refl
all_hex-is_trimmed (c ∷ t) h = ground (arith, ends_blank-all_hex (c ∷ t) h)

-- What may follow a cookie's value in the header: nothing, or a semicolon and anything.
abbrev pub ends_value : Text → Bool
ends_value [] = true
ends_value (c ∷ t) = c == b';'

no_semi : (t : Text) → all_hex t ≡ true → first_index (codes ";") t ≡ none
no_semi [] h = refl
no_semi (c ∷ t) h = ground (arith, no_semi t)

semi_after :
    (t rest : Text) (c : ℕ)
    → all_hex t ≡ true
    → (c == 59) ≡ true
    → first_index (codes ";") (t ++ (c ∷ rest)) ≡ some (length t)
semi_after [] rest c h e = ground arith
semi_after (d ∷ t) rest c h e = ground (arith, semi_after t rest c)

take-length-append : (t rest : Text) → take (length t) (t ++ rest) ≡ t
take-length-append [] rest = refl
take-length-append (c ∷ t) rest = ap (λ u. c ∷ u) (take-length-append t rest)

++-[] : (t : Text) → t ++ [] ≡ t
++-[] [] = refl
++-[] (c ∷ t) = ap (λ u. c ∷ u) (++-[] t)

module _ (strings : Strings) where
  cut_semi-tok :
      (tok rest : Text)
      → all_hex tok ≡ true
      → ends_value rest ≡ true
      → cut_semi strings (tok ++ rest) ≡ tok
  unfolding cut_semi
  cut_semi-tok tok [] h e =
      rw (++-[] tok, strings.index_of-first_index tok (codes ";"), no_semi tok h, cut_semi)
        (++-[] tok)
  cut_semi-tok tok (c ∷ rest) h e =
      rw
        (
          strings.index_of-first_index (tok ++ (c ∷ rest)) (codes ";"),
          semi_after tok rest c h e,
          cut_semi,
        )
        (take-length-append tok (c ∷ rest))

  -- The value of the cookie is read back from the header that a browser sends, alone or before others.
  pub session_of-cookie :
      (tok rest : Text)
      → all_hex tok ≡ true
      → ends_value rest ≡ true
      → session_of strings (codes "SESSION=" ++ (tok ++ rest)) ≡ some tok
  unfolding session_of
  session_of-cookie tok rest h e =
      rw
        (
          strings.index_of-first_index (codes "SESSION=" ++ (tok ++ rest)) (codes "SESSION="),
          session_of,
        )
        (ap some (
          ap strings.trim (cut_semi-tok tok rest h e)
          ∙ strings.trim_trimmed tok (all_hex-is_trimmed tok h)))
