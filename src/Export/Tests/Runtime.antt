-- ===== src/Export/Tests/Runtime.antt =====
-- A runtime for the runs of the models of apps/server/src/subscriptions/uri-builder.ts: a text is well
-- formed if it is ASCII, and each of its units is printed as two letters.
use nextpanel.Prelude.{
  ℕ, ◌+◌, ◌-◌, ◌%◌, ◌*◌, ◌/◌, ◌≤◌, ◌<◌, ◌≡◌, refl, sym, ap, subst, ◌∙◌, Bool, true, false, ◌&&◌,
  ◌||◌, not, Option, none, some, List, [], ◌∷◌, ◌++◌, Text, text_eq, ◌==◌, ltb, arith, all,
  includes, is_space, index_of, length, take, slice_from, split, if◌then◌else◌, Bool-cases, inl,
  inr,
}
use nextpanel.Prelude.Trim.{index_of-append, take-append, drop_past}
use nextpanel.Uri.Platform.{Host}
use nextpanel.Uri.Compact.Reading.{split-append}
use nextpanel.Export.{Params}
use nextpanel.Export.ShareUri.{Printer}
use nextpanel.Export.Tokens.{is_clear, IsToken, includes-append}
use nextpanel.Export.Places.{all-append}
use nextpanel.Export.Imported.{Prints, AreWellFormed, get_param}

abbrev is_ascii : ℕ → Bool
is_ascii c = ltb c 128

-- two letters for a unit
abbrev high : ℕ → ℕ
high c = if ltb c 128 then 97 + c / 16 else 97

abbrev low : ℕ → ℕ
low c = if ltb c 128 then 97 + c % 16 else 97

abbrev pub shifted : Text → Text
shifted [] = []
shifted (c ∷ s) = high c ∷ low c ∷ shifted s

abbrev unit_of : ℕ → ℕ → ℕ
unit_of a b = (a - 97) * 16 + (b - 97)

abbrev restored : Text → Text
restored (a ∷ b ∷ s) = unit_of a b ∷ restored s
restored _ = []

abbrev pub encode : Text → Option Text
encode s = if all is_ascii s then some (shifted s) else none

-- each pair is name=value&
abbrev pub query_of : Params → Text
query_of [] = []
query_of ((key, value) ∷ params) = (shifted key ++ b'=' ∷ shifted value) ++ b'&' ∷ query_of params

abbrev found_in : Option ℕ → Text → Text → Option Text → Option Text
found_in none part name rest = rest
found_in (some i) part name rest =
    if text_eq (restored (take i part)) name
    then some (restored (slice_from (i + 1) part))
    else rest

abbrev find_in : List Text → Text → Option Text
find_in [] name = none
find_in (part ∷ parts) name = found_in (index_of part b'=') part name (find_in parts name)

-- four units to a unit
abbrev pub base64 : Text → Text
base64 [] = []
base64 (c ∷ s) = high c ∷ low c ∷ b'z' ∷ b'z' ∷ base64 s

abbrev every_fourth : Text → Text
every_fourth (a ∷ b ∷ c ∷ d ∷ s) = unit_of a b ∷ every_fourth s
every_fourth _ = []

abbrev pub toy_host : Host
toy_host = record {
  decode_component = λ s. some (restored s);
  base64_bytes = λ s. every_fourth s;
  base64_text = λ s. s;
  utf8_fatal = some;
  utf8_text = λ s. s;
  byte_length = λ s. 0;
  is_ip = λ s. 4;
  domain_to_ascii = λ s. s;
  parse_json = λ s. none;
  print_json = λ j. [];
  string_of = λ j. none;
  number_of = λ j. none;
  url = λ s. none;
  query_get = λ s name. find_in (split b'&' s) name;
}

abbrev pub toy_printer : Printer
toy_printer = record { encode_component = encode; base64_of = base64; query_string = query_of }

restored-shifted : (s : Text) → all is_ascii s ≡ true → restored (shifted s) ≡ s
restored-shifted [] h = refl
restored-shifted (c ∷ s) h = ground (arith, restored-shifted s)

ascii_of : (s e : Text) → encode s ≡ some e → (all is_ascii s ≡ true) × (shifted s ≡ e)
ascii_of s e h = elim (Bool-cases (all is_ascii s)) [
  | inl ascii ↦ let same : some (shifted s) ≡ some e = rw ascii at h in (ascii, cc)
  | inr other ↦ let no : none ≡ some e = rw other at h in cc
]

abbrev is_standard : ℕ → Bool
is_standard c = is_clear c && not (c == b'-' || c == b'_')

letter_standard : (c : ℕ) → 97 ≤ c → c ≤ 122 → is_standard c ≡ true
unfolding is_space
letter_standard c low high = ground arith

high_letter : (c : ℕ) → (97 ≤ high c) × (high c ≤ 122)
high_letter c = ground arith

low_letter : (c : ℕ) → (97 ≤ low c) × (low c ≤ 122)
low_letter c = ground arith

standard_high : (c : ℕ) → is_standard (high c) ≡ true
standard_high c = let (l, h) = high_letter c in letter_standard (high c) l h

standard_low : (c : ℕ) → is_standard (low c) ≡ true
standard_low c = let (l, h) = low_letter c in letter_standard (low c) l h

token_of : (c : ℕ) → is_standard c ≡ true → is_clear c ≡ true
token_of c h = ground arith

shifted-IsToken : (s : Text) → IsToken (shifted s)
shifted-IsToken [] = refl
shifted-IsToken (c ∷ s) =
    rw (token_of (high c) (standard_high c), token_of (low c) (standard_low c)) (shifted-IsToken s)

shifted_without : (s : Text) (d : ℕ) → d < 97 → includes (shifted s) d ≡ false
shifted_without [] d h = refl
shifted_without (c ∷ s) d h = ground (arith, high_letter c, low_letter c, shifted_without s d)

query_of-IsToken : (params : Params) → IsToken (query_of params)
unfolding is_space
query_of-IsToken [] = refl
query_of-IsToken ((key, value) ∷ params) =
    all-append is_clear (shifted key ++ b'=' ∷ shifted value) (b'&' ∷ query_of params)
      (all-append is_clear (shifted key) (b'=' ∷ shifted value) (shifted-IsToken key)
        (shifted-IsToken value))
      (query_of-IsToken params)

query_reads_none : (name : Text) → find_in (split b'&' []) name ≡ none
unfolding split index_of
query_reads_none name = refl

pair_without : (key value : Text) → includes (shifted key ++ b'=' ∷ shifted value) b'&' ≡ false
pair_without key value =
    includes-append b'&' (shifted key) (b'=' ∷ shifted value)
    ∙ rw (shifted_without key b'&' (omega arith)) (shifted_without value b'&' (omega arith))

query_reads :
    (params : Params)
    → AreWellFormed toy_printer params
    → (name : Text) → find_in (split b'&' (query_of params)) name ≡ get_param name params
unfolding get_param
query_reads [] h name = query_reads_none name
query_reads ((key, value) ∷ params) (((e, k), (f, v)), h) name =
    rw
      (
        split-append b'&' (shifted key ++ b'=' ∷ shifted value) (query_of params)
            (pair_without key value),
        index_of-append (shifted key) (shifted value) b'=' (shifted_without key b'=' (omega arith)),
        take-append (shifted key) (b'=' ∷ shifted value),
        drop_past (shifted key) b'=' (shifted value),
        restored-shifted key (ascii_of key e k).0,
        restored-shifted value (ascii_of value f v).0,
        query_reads params h name,
      )
      refl

base64_units : (s : Text) → all is_standard (base64 s) ≡ true
unfolding is_space
base64_units [] = refl
base64_units (c ∷ s) = rw (standard_high c, standard_low c) (base64_units s)

length-base64 : (s : Text) → length (base64 s) % 4 ≡ 0
length-base64 [] = refl
length-base64 (c ∷ s) = omega (arith, length-base64 s)

base64_reads : (s : Text) → all is_ascii s ≡ true → every_fourth (base64 s) ≡ s
base64_reads [] h = refl
base64_reads (c ∷ s) h = ground (arith, base64_reads s)

pub toy-Prints : Prints toy_host toy_printer
toy-Prints = record {
  decodes = λ s e h.
      let (ascii, same) = ascii_of s e h in
      ap (λ t. some (restored t)) (sym same) ∙ ap some (restored-shifted s ascii);
  ascii_fits = λ s h. (shifted s, rw h refl);
  decodes_empty = refl;
  encoded_units = λ s e h. subst (λ (t : Text). IsToken t) (ascii_of s e h).1 (shifted-IsToken s);
  query_units = query_of-IsToken;
  query_reads = λ params h name _. query_reads params h name;
  base64_units = base64_units;
  base64_length = length-base64;
  base64_reads = λ s well. base64_reads s (ascii_of s well.0 well.1).0;
}
