-- ===== src/Prelude/Decimal.antt =====
-- Decimal numerals as lists of code units, as template literals print them.
use Prim.Native.Nat.{ℕ, zero, suc, ◌+◌, ◌-◌, ◌*◌, ◌/◌, ◌%◌, ◌≤◌, ◌<◌}
use mathlib.Core.Path.{◌≡◌, refl, sym, ap, ◌∙◌}
use mathlib.Core.Logic.{inl, inr}
use mathlib.Core.Bool.{true, false}
use mathlib.Core.List.{List, [], ◌∷◌}
use native.Mathlib.Omega.{arith}
use nextpanel.Prelude.Tests.{ltb, Bool-cases}
use nextpanel.Prelude.Lists.{All, is_empty}

digits_from : ℕ → ℕ → List ℕ → List ℕ
digits_from zero n rest = rest
digits_from (suc fuel) n rest = elim (ltb n 10) [
  | true ↦ (48 + n) ∷ rest
  | false ↦ digits_from fuel (n / 10) ((48 + n % 10) ∷ rest)
]

-- `${n}`; the fuel is enough, since each round divides `n` by ten
unfoldable pub decimal : ℕ → List ℕ
unfolding digits_from
decimal n = digits_from (suc n) n []

read_from : ℕ → List ℕ → ℕ
read_from n [] = n
read_from n (c ∷ s) = read_from (n * 10 + (c - 48)) s

-- the number that a numeral stands for
unfoldable pub read_decimal : List ℕ → ℕ
unfolding read_from
read_decimal s = read_from 0 s

abbrev pub IsDigits : List ℕ → Type 0
IsDigits s = All (λ c. (48 ≤ c) × (c ≤ 57)) s

read_from-digits_from :
    (fuel n : ℕ) (rest : List ℕ)
    → n < fuel
    → read_from 0 (digits_from fuel n rest) ≡ read_from n rest
unfolding digits_from read_from
read_from-digits_from zero n rest h = elim h [ ]
read_from-digits_from (suc fuel) n rest h = elim (Bool-cases (ltb n 10)) [
  | inl small ↦ rw (small, digits_from, read_from) (ap (λ k. read_from k rest) (omega arith))
  | inr large ↦
      rw (large, digits_from, read_from)
        (read_from-digits_from fuel (n / 10) ((48 + n % 10) ∷ rest) (ground arith)
          ∙ ap (λ k. read_from k rest) (omega arith))
]

pub read_decimal-decimal : (n : ℕ) → read_decimal (decimal n) ≡ n
unfolding read_decimal decimal
read_decimal-decimal n = read_from-digits_from (suc n) n [] (omega arith)

pub decimal-injective : {m n : ℕ} → decimal m ≡ decimal n → m ≡ n
decimal-injective {m} {n} e =
    sym (read_decimal-decimal m) ∙ ap read_decimal e ∙ read_decimal-decimal n

digits_from-IsDigits :
    (fuel n : ℕ) (rest : List ℕ) → IsDigits rest → IsDigits (digits_from fuel n rest)
unfolding digits_from
digits_from-IsDigits zero n rest h = h
digits_from-IsDigits (suc fuel) n rest h =
    ground (arith, digits_from-IsDigits fuel (n / 10) ((48 + n % 10) ∷ rest))

pub decimal-IsDigits : (n : ℕ) → IsDigits (decimal n)
unfolding decimal
decimal-IsDigits n = digits_from-IsDigits (suc n) n [] tt

digits_from-longer :
    (fuel n c : ℕ) (rest : List ℕ) → is_empty (digits_from fuel n (c ∷ rest)) ≡ false
unfolding digits_from
digits_from-longer zero n c rest = refl
digits_from-longer (suc fuel) n c rest =
    ground (arith, digits_from-longer fuel (n / 10) (48 + n % 10) (c ∷ rest))

pub decimal-ne-nil : (n : ℕ) → is_empty (decimal n) ≡ false
unfolding decimal
decimal-ne-nil n = ground (arith, digits_from-longer n (n / 10) (48 + n % 10) [])
