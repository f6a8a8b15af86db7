-- ===== src/Portal/Json.antt =====
-- Flat JSON objects, as `/stat.json` of src/web/portal.cpp is meant to be read: fields, how they are
-- written, and a reader that is independent of the code.
use spool_gate.Base.{
  ℕ, zero, suc, ◌+◌, ◌<◌, ◌≡◌, refl, ◌∙◌, Bool, true, false, not, ◌&&◌, Option, none, some, List,
  [], ◌∷◌, ◌++◌, Text, codes, is_empty, if◌then◌else◌, leb, ◌==◌, ℤ, pos, negsuc, signed_decimal,
  decimal, is_digit, starts_digit, read_digits, read_digits-decimal, starts_digit-decimal, length,
  length-append, arith, All, append_assoc,
}

pub data Value : Type 0 where
  number : ℤ → Value
  boolean : Bool → Value
  quoted : Text → Value

abbrev pub Field : Type 0
Field = Text × Value

unfoldable pub value_text : Value → Text
value_text (number z) = signed_decimal z
value_text (boolean b) = if b then codes "true" else codes "false"
value_text (quoted t) = 34 ∷ (t ++ 34 ∷ [])

-- The members of an object from the name of the next one, with the brace at the end.
unfoldable pub members_text : Field → List Field → Text
members_text (k, v) [] = 34 ∷ (k ++ 34 ∷ 58 ∷ (value_text v ++ 125 ∷ []))
members_text (k, v) (f ∷ rest) = 34 ∷ (k ++ 34 ∷ 58 ∷ (value_text v ++ 44 ∷ members_text f rest))

-- `then` with the first result, if there is one.
abbrev pub and_then {ℓ κ} : {A : Type ℓ} → {B : Type κ} → Option A → (A → Option B) → Option B
and_then none f = none
and_then (some a) f = f a

abbrev longer : ℕ → Option (Text × Text) → Option (Text × Text)
longer c none = none
longer c (some (s, t)) = some (c ∷ s, t)

-- A byte that may stand for itself between quotes.
abbrev is_literal : ℕ → Bool
is_literal c = not (c == 34) && (not (c == 92) && leb 32 c)

-- The text up to the closing quote, and what stands behind it. Escapes are refused.
unfoldable read_quoted : Text → Option (Text × Text)
read_quoted [] = none
read_quoted (c ∷ t) =
    let more = longer c (read_quoted t) in
    if c == 34 then some ([], t) else (if is_literal c then more else none)

unfoldable expect : Text → Text → Option Text
expect [] t = some t
expect (c ∷ w) [] = none
expect (c ∷ w) (d ∷ t) = let more = expect w t in if c == d then more else none

abbrev negated : ℕ → ℤ
negated zero = pos 0
negated (suc n) = negsuc n

abbrev read_number : Text → Option (Value × Text)
read_number t =
    if starts_digit t then some (number (pos (read_digits 0 t).0), (read_digits 0 t).1) else none

abbrev read_negative : Text → Option (Value × Text)
read_negative t =
    if starts_digit t
    then some (number (negated (read_digits 0 t).0), (read_digits 0 t).1)
    else none

abbrev read_word : Text → Value → Text → Option (Value × Text)
read_word w v t = and_then (expect w t) (λ rest. some (v, rest))

unfoldable read_value : Text → Option (Value × Text)
read_value [] = none
read_value (c ∷ t) =
    if c == 34
    then and_then (read_quoted t) (λ r. some (quoted r.0, r.1))
    else (if c == 45
        then read_negative t
        else (if c == 116
            then read_word (codes "rue") (boolean true) t
            else (if c == 102
                then read_word (codes "alse") (boolean false) t
                else read_number (c ∷ t))))

-- A quoted name, a colon and a value.
unfoldable read_field : Text → Option (Field × Text)
read_field t = and_then (expect (34 ∷ []) t) (λ t₁. and_then (read_quoted t₁) (λ name.
    and_then (expect (58 ∷ []) (name.1))
      (λ t₂. and_then (read_value t₂) (λ r. some ((name.0, r.0), r.1)))))

abbrev in_front : Field → Option (List Field) → Option (List Field)
in_front f none = none
in_front f (some fs) = some (f ∷ fs)

-- The members of an object up to its brace, behind which nothing stands. The fuel bounds their number.
unfoldable read_members : ℕ → Text → Option (List Field)
read_members zero t = none
read_members (suc fuel) t = and_then (read_field t) (λ r. elim (r.1) [
  | [] ↦ none
  | c ∷ rest ↦
      let more = read_members fuel rest in
      if c == 125
      then (if is_empty rest then some (r.0 ∷ []) else none)
      else (if c == 44 then in_front (r.0) more else none)
])

-- A whole text as an object with at least one member.
pub read_object : Text → Option (List Field)
read_object t = and_then (expect (123 ∷ []) t) (λ rest. read_members (length rest) rest)

-- The text has no quote, no backslash and no control byte.
abbrev pub is_plain : Text → Bool
is_plain [] = true
is_plain (c ∷ t) = is_literal c && is_plain t

-- What is printed so that it can be read: numbers of at most 32 bits, and plain texts.
abbrev pub IsReadable : Value → Type 0
IsReadable (number (pos n)) = n < 4294967296
IsReadable (number (negsuc n)) = n + 1 < 4294967296
IsReadable (boolean b) = Unit
IsReadable (quoted t) = is_plain t ≡ true

read_quoted_plain : (s t : Text) → is_plain s ≡ true → read_quoted (s ++ 34 ∷ t) ≡ some (s, t)
unfolding read_quoted
read_quoted_plain [] t p = refl
read_quoted_plain (c ∷ s) t p = ground (arith, read_quoted_plain s t)

read_value_digits : (t : Text) → starts_digit t ≡ true → read_value t ≡ read_number t
unfolding read_value
read_value_digits [] s = absurd (ground arith)
read_value_digits (c ∷ t) s = ground arith

negated_suc : (n : ℕ) → negated (n + 1) ≡ negsuc n
negated_suc n = ground arith

read_value-value_text :
    (v : Value) (c : ℕ) (t : Text)
    → IsReadable v
    → is_digit c ≡ false
    → read_value (value_text v ++ c ∷ t) ≡ some (v, c ∷ t)
unfolding read_value value_text signed_decimal expect
read_value-value_text (number (pos n)) c t l d =
    read_value_digits (decimal n ++ c ∷ t) (starts_digit-decimal n (c ∷ t))
    ∙ rw (starts_digit-decimal n (c ∷ t), read_digits-decimal n c t l d) refl
read_value-value_text (number (negsuc n)) c t l d =
    rw (starts_digit-decimal (n + 1) (c ∷ t), read_digits-decimal (n + 1) c t l d, negated_suc n)
      refl
read_value-value_text (boolean true) c t l d = refl
read_value-value_text (boolean false) c t l d = refl
read_value-value_text (quoted s) c t l d =
    rw (append_assoc s (34 ∷ []) (c ∷ t), read_quoted_plain s (c ∷ t) l) refl

abbrev pub IsReadableField : Field → Type 0
IsReadableField f = (is_plain f.0 ≡ true) × IsReadable f.1

read_field_text :
    (f : Field) (c : ℕ) (t : Text)
    → IsReadableField f
    → is_digit c ≡ false
    → read_field (34 ∷ (f.0 ++ 34 ∷ 58 ∷ (value_text f.1 ++ c ∷ t))) ≡ some (f, c ∷ t)
unfolding read_field expect
read_field_text f c t l d =
    rw
      (
        read_quoted_plain f.0 (58 ∷ (value_text f.1 ++ c ∷ t)) l.0,
        read_value-value_text f.1 c t l.1 d,
      )
      refl

read_members-members_text :
    (fuel : ℕ) (f : Field) (fs : List Field)
    → length fs < fuel
    → All IsReadableField (f ∷ fs)
    → read_members fuel (members_text f fs) ≡ some (f ∷ fs)
unfolding read_members members_text
read_members-members_text zero f fs l r = absurd (omega arith)
read_members-members_text (suc fuel) f [] l r = rw (read_field_text f 125 [] r.0 refl) refl
read_members-members_text (suc fuel) f (g ∷ fs) l r =
    rw
      (
        read_field_text f 44 (members_text g fs) r.0 refl,
        read_members-members_text fuel g fs (omega arith) r.1,
      )
      refl

length-members_text : (f : Field) (fs : List Field) → length fs < length (members_text f fs)
unfolding members_text
length-members_text f [] = omega arith
length-members_text f (g ∷ fs) = omega (
  arith,
  length-members_text g fs,
  length-append f.0 (34 ∷ 58 ∷ (value_text f.1 ++ 44 ∷ members_text g fs)),
  length-append (value_text f.1) (44 ∷ members_text g fs),
)

-- An object that is written from fields is read as these fields.
pub read_object-members_text :
    (f : Field) (fs : List Field)
    → All IsReadableField (f ∷ fs)
    → read_object (123 ∷ members_text f fs) ≡ some (f ∷ fs)
unfolding read_object expect
read_object-members_text f fs r = read_members-members_text _ f fs (length-members_text f fs) r
