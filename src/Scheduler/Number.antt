-- ===== src/Scheduler/Number.antt =====
-- `Number(text)` and `Number.isInteger`, as far as src/scheduler/schedule.ts can tell the results
-- apart: the value if it is an integer from 0 on, and nothing for everything else (NaN, Infinity, a
-- fraction, a number below zero). Values are exact; a double rounds one with more than 15 digits.
use open_dilim.Prelude.{
  ℕ, ◌+◌, ◌-◌, ◌*◌, ◌/◌, ◌%◌, ◌^◌, Bool, true, false, ◌&&◌, ◌||◌, Option, none, some, [], ◌∷◌, ltb,
  leb, ◌==◌, if◌then◌else◌,
}
use open_dilim.Prelude.Text.{Text, is_digit, is_empty, trim}

-- The digits at the front: their value, how many they are, and what follows.
record Digits : Type 0 where
  value : ℕ
  many : ℕ
  rest : Text

digits_from : ℕ → ℕ → Text → Digits
unfolding is_digit
digits_from value many [] = record { value = value; many = many; rest = [] }
digits_from value many (c ∷ s) =
    let more = digits_from (value * 10 + (c - b'0')) (many + 1) s in
    if is_digit c then more else record { value = value; many = many; rest = c ∷ s }

-- A digit of a numeral in base 2, 8 or 16.
digit_value : ℕ → ℕ
unfolding is_digit
digit_value c =
    if is_digit c
    then c - b'0'
    else if leb b'a' c && leb c b'f'
    then c - b'a' + 10
    else if leb b'A' c && leb c b'F'
    then c - b'A' + 10
    else 99

based_from : ℕ → ℕ → Text → Option ℕ
unfolding digit_value
based_from base value [] = some value
based_from base value (c ∷ s) =
    let more = based_from base (value * base + digit_value c) s in
    if ltb (digit_value c) base then more else none

based : ℕ → Text → Option ℕ
unfolding based_from
based base [] = none
based base (c ∷ s) = based_from base 0 (c ∷ s)

-- `mantissa × 10 ^ up / 10 ^ down`, if that is an integer.
scaled : ℕ → ℕ → ℕ → Option ℕ
scaled mantissa up down =
    if leb down up
    then some (mantissa * 10 ^ (up - down))
    else if mantissa % 10 ^ (down - up) == 0
    then some (mantissa / 10 ^ (down - up))
    else none

abbrev none_unless : Bool → Option ℕ → Option ℕ
none_unless true n = n
none_unless false n = none

-- The digits of an exponent, up to the end.
exponent : ℕ → ℕ → Bool → Digits → Option ℕ
unfolding scaled
exponent mantissa down negative e =
    none_unless (ltb 0 e.many && is_empty e.rest)
      (if negative then scaled mantissa 0 (down + e.value) else scaled mantissa e.value down)

signed_exponent : ℕ → ℕ → Text → Option ℕ
unfolding exponent digits_from
signed_exponent mantissa down [] = none
signed_exponent mantissa down (c ∷ s) =
    if c == b'-'
    then exponent mantissa down true (digits_from 0 0 s)
    else if c == b'+'
    then exponent mantissa down false (digits_from 0 0 s)
    else exponent mantissa down false (digits_from 0 0 (c ∷ s))

-- What follows the mantissa.
with_exponent : ℕ → ℕ → Text → Option ℕ
unfolding signed_exponent scaled
with_exponent mantissa down [] = scaled mantissa 0 down
with_exponent mantissa down (c ∷ s) =
    if c == b'e' || c == b'E' then signed_exponent mantissa down s else none

with_fraction : ℕ → Digits → Option ℕ
unfolding with_exponent
with_fraction whole_digits f =
    none_unless (ltb 0 (whole_digits + f.many)) (with_exponent f.value f.many f.rest)

after_whole : Digits → Text → Option ℕ
unfolding with_fraction digits_from with_exponent
after_whole d [] = none_unless (ltb 0 d.many) (with_exponent d.value 0 [])
after_whole d (c ∷ s) =
    if c == b'.'
    then with_fraction d.many (digits_from d.value 0 s)
    else none_unless (ltb 0 d.many) (with_exponent d.value 0 (c ∷ s))

decimal : Text → Option ℕ
unfolding digits_from after_whole
decimal s = let d = digits_from 0 0 s in after_whole d d.rest

-- A double does not reach this value: the literal reads as Infinity.
finite : Option ℕ → Option ℕ
finite none = none
finite (some n) = if ltb n (2 ^ 1024 - 2 ^ 970) then some n else none

prefixed : ℕ → Text → Option ℕ
unfolding based decimal
prefixed c s =
    if c == b'x' || c == b'X'
    then based 16 s
    else if c == b'o' || c == b'O'
    then based 8 s
    else if c == b'b' || c == b'B'
    then based 2 s
    else decimal (b'0' ∷ c ∷ s)

-- The literal without the white space around it; no literal at all reads as 0.
literal : Text → Option ℕ
unfolding prefixed decimal
literal [] = some 0
literal (c ∷ []) = decimal (c ∷ [])
literal (c ∷ d ∷ s) =
    if c == b'0' then prefixed d s else if c == b'+' then decimal (d ∷ s) else decimal (c ∷ d ∷ s)

unfoldable pub integer_of_text : Text → Option ℕ
unfolding finite literal trim
integer_of_text t = finite (literal (trim t))
