-- ===== src/Uri/Numbers.antt =====
-- `Number(text)` of ECMAScript, as an exact decimal: the rounding to a double is left out, which
-- can tell a port from no port only for literals of more than fifteen digits.
pub mod Literals
use nextpanel.Prelude.{
  ℕ, ◌+◌, ◌-◌, ◌*◌, ◌/◌, ◌%◌, ◌^◌, Bool, true, false, ◌&&◌, ◌||◌, List, [], ◌∷◌, ◌++◌, Option, none,
  some, leb, ◌==◌, if◌then◌else◌, Text, text, text_eq, is_empty, starts_with, trim, length, drop,
  read_decimal,
}

-- `finite neg m p` is m / 10 ^ p, negated if `neg`
pub data Number : Type 0 where
  nan : Number
  infinite : (neg : Bool) → Number
  finite : (neg : Bool) (mantissa places : ℕ) → Number

abbrev pub is_digit : ℕ → Bool
is_digit c = leb 48 c && leb c 57

-- the leading digits, and the rest
unfoldable pub span_digits : Text → Text × Text
span_digits [] = ([], [])
span_digits (c ∷ s) =
    let rest = span_digits s in if is_digit c then (c ∷ rest.0, rest.1) else ([], c ∷ s)

-- the value of a digit in a base up to 16; 16 if it is none
abbrev digit_value : ℕ → ℕ
digit_value c =
    if is_digit c
    then c - 48
    else if leb 97 c && leb c 102
    then c - 87
    else if leb 65 c && leb c 70
    then c - 55
    else 16

radix_from : ℕ → ℕ → Text → Number
radix_from base n [] = finite false n 0
radix_from base n (c ∷ s) =
    let rest = radix_from base (n * base + digit_value c) s in
    if leb base (digit_value c) then nan else rest

radix : ℕ → Text → Number
unfolding radix_from
radix base [] = nan
radix base (c ∷ s) = radix_from base 0 (c ∷ s)

-- m / 10 ^ p times 10 ^ e, or 10 ^ -e
abbrev scaled : Bool → ℕ → ℕ → Bool → ℕ → Number
scaled neg m p false e = if leb p e then finite neg (m * 10 ^ (e - p)) 0 else finite neg m (p - e)
scaled neg m p true e = finite neg m (p + e)

-- the digits of an exponent, which are all that is left
abbrev exponent_digits : Bool → ℕ → ℕ → Bool → Text × Text → Number
exponent_digits neg m p down (digits, []) =
    if is_empty digits then nan else scaled neg m p down (read_decimal digits)
exponent_digits neg m p down (digits, c ∷ rest) = nan

exponent_sign : Bool → ℕ → ℕ → Text → Number
exponent_sign neg m p [] = nan
exponent_sign neg m p (c ∷ s) =
    if c == b'-'
    then exponent_digits neg m p true (span_digits s)
    else if c == b'+'
    then exponent_digits neg m p false (span_digits s)
    else exponent_digits neg m p false (span_digits (c ∷ s))

exponent : Bool → ℕ → ℕ → Text → Number
unfolding exponent_sign
exponent neg m p [] = finite neg m p
exponent neg m p (c ∷ s) = if c == b'e' || c == b'E' then exponent_sign neg m p s else nan

-- the fraction, if there is one, and what follows it
abbrev fraction : Text → Text × Text
fraction [] = ([], [])
fraction (c ∷ s) = if c == b'.' then span_digits s else ([], c ∷ s)

decimal_literal : Bool → Text → Number
unfolding exponent span_digits
decimal_literal neg s =
    let whole = span_digits s in
    let part = fraction whole.1 in
    if is_empty (whole.0 ++ part.0)
    then nan
    else exponent neg (read_decimal (whole.0 ++ part.0)) (length part.0) part.1

unsigned : Bool → Text → Number
unfolding decimal_literal
unsigned neg s = if text_eq s (text "Infinity") then infinite neg else decimal_literal neg s

signed : Text → Number
unfolding unsigned
signed [] = finite false 0 0
signed (c ∷ s) =
    if c == b'+'
    then unsigned false s
    else if c == b'-'
    then unsigned true s
    else unsigned false (c ∷ s)

number_of_literal : Text → Number
unfolding signed radix starts_with
number_of_literal s =
    if starts_with s (text "0x") || starts_with s (text "0X")
    then radix 16 (drop 2 s)
    else if starts_with s (text "0o") || starts_with s (text "0O")
    then radix 8 (drop 2 s)
    else if starts_with s (text "0b") || starts_with s (text "0B")
    then radix 2 (drop 2 s)
    else signed s

unfoldable pub number : Text → Number
unfolding number_of_literal
number s = number_of_literal (trim s)

-- Number.isInteger(n) && n >= 1 && n <= 65535, and then the port
unfoldable pub port_of : Number → Option ℕ
port_of nan = none
port_of (infinite neg) = none
port_of (finite true m p) = none
port_of (finite false m p) =
    if m % 10 ^ p == 0 && (leb 1 (m / 10 ^ p) && leb (m / 10 ^ p) 65535)
    then some (m / 10 ^ p)
    else none

abbrev pub is_nan : Number → Bool
is_nan nan = true
is_nan _ = false
