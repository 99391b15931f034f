-- ===== src/Export/Tokens.antt =====
-- Texts without the characters at which a link is cut, and the cuts of a link that is made of them.
use nextpanel.Prelude.{
  ℕ, ◌≡◌, ◌≤◌, refl, Bool, true, false, ◌||◌, not, [], ◌∷◌, ◌++◌, Text, ◌==◌, arith, all, includes,
  is_space, decimal, decimal-IsDigits, IsDigits,
}

-- no white space and none of # ? @ : [ ]
abbrev pub is_clear : ℕ → Bool
is_clear c =
    not (is_space c || c == b'#' || c == b'?' || c == b'@' || c == b':' || c == b'[' || c == b']')

abbrev pub IsToken : Text → Type 0
IsToken s = all is_clear s ≡ true

-- the same, but with colons
abbrev pub is_place : ℕ → Bool
is_place c = is_clear c || c == b':'

module _ (d : ℕ) where
  pub includes-append : (s t : Text) → includes (s ++ t) d ≡ (includes s d || includes t d)
  includes-append [] t = refl
  includes-append (c ∷ s) t = ground (arith, includes-append s t)

-- a text whose units are all of a kind that leaves one out
pub includes_none :
    (good : ℕ → Bool) (d : ℕ)
    → ((c : ℕ) → good c ≡ true → (c == d) ≡ false)
    → (s : Text) → all good s ≡ true
    → includes s d ≡ false
includes_none good d f [] h = refl
includes_none good d f (c ∷ s) h = ground (arith, f c, includes_none good d f s)

is_token_digit : (c : ℕ) → 48 ≤ c → c ≤ 57 → is_clear c ≡ true
unfolding is_space
is_token_digit c low high = ground arith

IsToken-IsDigits : (s : Text) → IsDigits s → IsToken s
IsToken-IsDigits [] h = refl
IsToken-IsDigits (c ∷ s) ((low, high), h) = rw (is_token_digit c low high) (IsToken-IsDigits s h)

pub IsToken-decimal : (n : ℕ) → IsToken (decimal n)
IsToken-decimal n = IsToken-IsDigits (decimal n) (decimal-IsDigits n)

-- A token holds none of the characters at which a link is cut.
pub no_hash : (c : ℕ) → is_clear c ≡ true → (c == b'#') ≡ false
no_hash c h = ground arith

pub no_query : (c : ℕ) → is_clear c ≡ true → (c == b'?') ≡ false
no_query c h = ground arith

pub no_at : (c : ℕ) → is_clear c ≡ true → (c == b'@') ≡ false
no_at c h = ground arith

pub no_colon : (c : ℕ) → is_clear c ≡ true → (c == b':') ≡ false
no_colon c h = ground arith

pub no_bracket : (c : ℕ) → is_clear c ≡ true → (c == b'[') ≡ false
no_bracket c h = ground arith

pub no_space : (c : ℕ) → is_clear c ≡ true → is_space c ≡ false
no_space c h = ground arith
