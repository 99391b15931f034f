-- ===== src/Uri/Compact/Lines.antt =====
-- The lines of a subscription of apps/server/src/external-nodes/uri-parser.ts (parseSubscriptionText).
use nextpanel.Prelude.{
  ◌≡◌, refl, ap, ◌∙◌, arith, Bool, true, false, not, List, [], ◌∷◌, ◌++◌, Option, none, some, ◌==◌,
  Text, is_empty, is_some, includes, trim, keep, map, All, Option-cases, inl, inr, count_where,
}
use nextpanel.Uri.Platform.{Host}
use nextpanel.Uri.External.{Protocol}
use nextpanel.Uri.Compact.{
  parse_bare_proxy, parse_uri, import_lines, lines_of, split_lines, filled_lines,
  parse_subscription_text,
}

-- A line has no line feed and no carriage return.
abbrev pub IsLine : Text → Type 0
IsLine line = (includes line 10 ≡ false) × (includes line 13 ≡ false)

abbrev pub newline : Bool → Text
newline true = 13 ∷ 10 ∷ []
newline false = 10 ∷ []

-- A line and the others, each behind a line feed, or a carriage return and a line feed where it is true.
abbrev pub written : Text → List (Bool × Text) → Text
written line [] = line
written line ((is_crlf, next) ∷ rest) = line ++ (newline is_crlf ++ written next rest)

abbrev pub is_filled : Text → Bool
is_filled line = not (is_empty (trim line))

-- those that are some, in their order
abbrev pub given {ℓ} : {A : Type ℓ} → List (Option A) → List A
given [] = []
given (none ∷ options) = given options
given (some a ∷ options) = a ∷ given options

split_lines-newline :
    (line : Text) (is_crlf : Bool) (rest : Text)
    → IsLine line
    → split_lines (line ++ (newline is_crlf ++ rest)) ≡ line ∷ split_lines rest
unfolding split_lines
split_lines-newline [] true rest h = refl
split_lines-newline [] false rest h = refl
split_lines-newline (c ∷ line) is_crlf rest (no_lf, no_cr) =
    let lf : (c == 10) ≡ false = ground arith in
    let cr : (c == 13) ≡ false = ground arith in
    rw (lf, cr, split_lines-newline line is_crlf rest (ground arith, ground arith)) refl

split_lines-line : (line : Text) → IsLine line → split_lines line ≡ line ∷ []
unfolding split_lines
split_lines-line [] h = refl
split_lines-line (c ∷ line) (no_lf, no_cr) =
    let lf : (c == 10) ≡ false = ground arith in
    let cr : (c == 13) ≡ false = ground arith in
    rw (lf, cr, split_lines-line line (ground arith, ground arith)) refl

split_lines-written :
    (line : Text) (rest : List (Bool × Text))
    → IsLine line
    → All (λ r. IsLine r.1) rest
    → split_lines (written line rest) ≡ line ∷ map (λ r. r.1) rest
split_lines-written line [] h k = split_lines-line line h
split_lines-written line ((is_crlf, next) ∷ rest) h (k, ks) =
    split_lines-newline line is_crlf (written next rest) h
    ∙ ap (λ x. line ∷ x) (split_lines-written next rest k ks)

includes-newline :
    (line : Text) (is_crlf : Bool) (rest : Text)
    → includes (line ++ (newline is_crlf ++ rest)) 10 ≡ true
includes-newline [] true rest = ground arith
includes-newline [] false rest = ground arith
includes-newline (c ∷ line) is_crlf rest = ground (arith, includes-newline line is_crlf rest)

lines_of-list :
    (host : Host) (s : Text) (protocol : Protocol)
    → parse_bare_proxy s protocol ≡ none
    → includes s 10 ≡ true
    → lines_of host s protocol ≡ filled_lines s
unfolding lines_of
lines_of-list host s protocol whole many = rw (whole, many) refl

import_lines-given :
    (host : Host) (protocol : Protocol) (lines : List Text)
    → let read = map (λ line. parse_uri host (trim line) protocol) lines in
      ((import_lines host protocol lines).nodes ≡ given read)
      × ((import_lines host protocol lines).failed ≡ count_where (λ r. not (is_some r)) read)
unfolding import_lines count_where
import_lines-given host protocol [] = (refl, refl)
import_lines-given host protocol (line ∷ lines) =
    let (nodes, failed) = import_lines-given host protocol lines in
    elim (Option-cases (parse_uri host (trim line) protocol)) [
      | inl bad ↦ rw bad (nodes, omega (arith, failed))
      | inr (node, good) ↦ rw good (ap (λ x. node ∷ x) nodes, omega (arith, failed))
    ]

-- A list of two lines or more, with a line feed, or a carriage return and a line feed, between them and
-- neither character within a line, is read line by line: blank lines are passed over, the nodes are those of the other lines that can be
-- parsed, in their order, and each of the rest counts as failed. There is no white space around the
-- list, and it is not a compact proxy as a whole.
pub parse_subscription_text-written :
    (host : Host) (protocol : Protocol) (line next : Text) (is_crlf : Bool)
    (rest : List (Bool × Text))
    → IsLine line
    → IsLine next
    → All (λ r. IsLine r.1) rest
    → let s = written line ((is_crlf, next) ∷ rest) in
      trim s ≡ s
      → parse_bare_proxy s protocol ≡ none
      → let read =
          map
            (λ line. parse_uri host (trim line) protocol)
            (keep is_filled (line ∷ next ∷ map (λ r. r.1) rest)) in
        let found = parse_subscription_text host s protocol in
        (found.nodes ≡ given read) × (found.failed ≡ count_where (λ r. not (is_some r)) read)
unfolding parse_subscription_text
parse_subscription_text-written host protocol line next is_crlf rest h k ks clean whole =
    let s = written line ((is_crlf, next) ∷ rest) in
    let lines = keep is_filled (line ∷ next ∷ map (λ r. r.1) rest) in
    let split : lines_of host s protocol ≡ lines =
      lines_of-list host s protocol whole (includes-newline line is_crlf (written next rest))
      ∙ ap (keep is_filled) (split_lines-written line ((is_crlf, next) ∷ rest) h (k, ks)) in
    rw (clean, split) (import_lines-given host protocol lines)
