-- ===== src/Uri/Numbers/Literals.antt =====
-- Decimal numerals are read as the numbers that they print.
use mathlib.Core.List.{append-nil}
use nextpanel.Prelude.{
  decimal-ne-nil, is_space, ◌∙◌, ℕ, ◌≤◌, ◌<◌, ◌≡◌, refl, false, [], ◌∷◌, arith, Text, text_eq,
  is_empty, starts_with, read_decimal, decimal, decimal-IsDigits, read_decimal-decimal, IsDigits,
  ap,
}
use nextpanel.Prelude.Trim.{NoSpace, trim-NoSpace}
use nextpanel.Uri.Numbers.{
  finite, span_digits, decimal_literal, unsigned, signed, number_of_literal, number,
}

span_digits-IsDigits : (s : Text) → IsDigits s → span_digits s ≡ (s, [])
unfolding span_digits
span_digits-IsDigits [] h = refl
span_digits-IsDigits (c ∷ s) (h, hs) = ground (arith, span_digits-IsDigits s hs)

decimal_literal_digits :
    (c : ℕ) (s : Text)
    → IsDigits (c ∷ s)
    → decimal_literal false (c ∷ s) ≡ finite false (read_decimal (c ∷ s)) 0
unfolding decimal_literal
decimal_literal_digits c s h = rw (decimal_literal, span_digits-IsDigits (c ∷ s) h, append-nil) refl

unsigned_digits :
    (c : ℕ) (s : Text)
    → IsDigits (c ∷ s)
    → unsigned false (c ∷ s) ≡ finite false (read_decimal (c ∷ s)) 0
unfolding unsigned text_eq
unsigned_digits c s h = ground (arith, decimal_literal_digits c s h)

signed_digits :
    (c : ℕ) (s : Text) → IsDigits (c ∷ s) → signed (c ∷ s) ≡ finite false (read_decimal (c ∷ s)) 0
unfolding signed
signed_digits c s h = ground (arith, unsigned_digits c s h)

-- No prefix of another base: what follows a first zero is a digit, not a letter.
no_prefix : (c x : ℕ) (s : Text) → 57 < x → IsDigits s → starts_with (c ∷ s) (48 ∷ x ∷ []) ≡ false
unfolding starts_with
no_prefix c x [] far h = ground arith
no_prefix c x (d ∷ s) far h = ground arith

number_of_digits :
    (c : ℕ) (s : Text)
    → IsDigits (c ∷ s)
    → number_of_literal (c ∷ s) ≡ finite false (read_decimal (c ∷ s)) 0
unfolding number_of_literal
number_of_digits c s h =
    rw
      (
        no_prefix c 120 s (omega arith) h.1,
        no_prefix c 88 s (omega arith) h.1,
        no_prefix c 111 s (omega arith) h.1,
        no_prefix c 79 s (omega arith) h.1,
        no_prefix c 98 s (omega arith) h.1,
        no_prefix c 66 s (omega arith) h.1,
      )
      (signed_digits c s h)

digit_not_space : (c : ℕ) → 48 ≤ c → c ≤ 57 → is_space c ≡ false
unfolding is_space
digit_not_space c low high = ground arith

IsDigits-NoSpace : (s : Text) → IsDigits s → NoSpace s
IsDigits-NoSpace [] h = tt
IsDigits-NoSpace (c ∷ s) h = (digit_not_space c h.0.0 h.0.1, IsDigits-NoSpace s h.1)

pub number-digits :
    (s : Text) → IsDigits s → is_empty s ≡ false → number s ≡ finite false (read_decimal s) 0
unfolding number
number-digits [] h e = cc
number-digits (c ∷ s) h e =
    rw (trim-NoSpace (c ∷ s) (IsDigits-NoSpace (c ∷ s) h)) (number_of_digits c s h)

-- `Number(String(n))` is `n`.
pub number-decimal : (n : ℕ) → number (decimal n) ≡ finite false n 0
number-decimal n =
    number-digits (decimal n) (decimal-IsDigits n) (decimal-ne-nil n)
    ∙ ap (λ m. finite false m 0) (read_decimal-decimal n)
