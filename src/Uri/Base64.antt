-- ===== src/Uri/Base64.antt =====
-- The texts that the decoders of Base64 in apps/server/src/nodes/socks-uri.ts and
-- apps/server/src/external-nodes/uri-parser.ts accept, and their padding.
use nextpanel.Prelude.{
  ℕ, zero, suc, ◌-◌, ◌%◌, Bool, ◌&&◌, ◌||◌, not, [], ◌∷◌, ◌++◌, leb, ◌==◌, if◌then◌else◌, Text,
  text, is_empty, length, all, replace,
}
use mathlib.Core.List.{reverse}
use nextpanel.Uri.Numbers.{is_digit}

-- [A-Za-z0-9+/_-]
abbrev pub is_base64_unit : ℕ → Bool
is_base64_unit c =
    (leb 65 c && leb c 90)
    || (leb 97 c && leb c 122)
    || is_digit c
    || c == b'+'
    || c == b'/'
    || c == b'_'
    || c == b'-'

-- `s.replace(/=+$/, '')`
strip_front : Text → Text
strip_front [] = []
strip_front (c ∷ s) = let rest = strip_front s in if c == b'=' then rest else c ∷ s

unfoldable pub strip_padding : Text → Text
unfolding strip_front
strip_padding s = reverse (strip_front (reverse s))

-- /^[A-Za-z0-9+/_-]+={0,2}$/
abbrev pub is_base64 : Text → Bool
is_base64 s =
    let body = strip_padding s in
    not (is_empty body) && (all is_base64_unit body && leb (length s - length body) 2)

-- `s + '='.repeat((4 - s.length % 4) % 4)`
abbrev pub pad_with : ℕ → Text → Text
pad_with zero s = s
pad_with (suc n) s = pad_with n s ++ text "="

abbrev pub padded : Text → Text
padded s = pad_with ((4 - length s % 4) % 4) s

abbrev pub url_safe : Text → Text
url_safe s = replace b'_' b'/' (replace b'-' b'+' s)
