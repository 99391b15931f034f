-- ===== src/Export/Cut.antt =====
-- The importer's cuts of a link that the builder made: apps/server/src/external-nodes/uri-parser.ts
-- against apps/server/src/subscriptions/uri-builder.ts.
use nextpanel.Prelude.{
  ℕ, ◌≡◌, refl, ap, ◌∙◌, false, Option, none, some, [], ◌∷◌, ◌++◌, Text, arith, includes, index_of,
  last_index_of, take,
}
use mathlib.Core.Option
use mathlib.Core.List.{append-nil}
use nextpanel.Prelude.Trim.{index_of-append, last_index_of-append, take-append, drop_past}
use nextpanel.Uri.Socks.{before, right_of}
use nextpanel.Uri.External.{past, or_else}
use nextpanel.Uri.Links.{Link, cut}
use nextpanel.Export.ShareUri.{link_text, query_part}

-- a character cuts a text where it occurs first
pub cut_at :
    (s t : Text) (c : ℕ)
    → includes s c ≡ false
    → (before (index_of (s ++ c ∷ t) c) (s ++ c ∷ t) ≡ s)
      × (past (index_of (s ++ c ∷ t) c) (s ++ c ∷ t) ≡ some t)
cut_at s t c h =
    let found = index_of-append s t c h in
    (rw found (take-append s (c ∷ t)), rw found (ap some (drop_past s c t)))

index_of-absent : (s : Text) (c : ℕ) → includes s c ≡ false → index_of s c ≡ none
unfolding index_of
index_of-absent [] c h = refl
index_of-absent (d ∷ s) c h = ground (arith, index_of-absent s c)

-- the user and the place before the query
pub record IsClean (user place : Text) (query : Option Text) : Type 0 where
  pub main_hash : includes ((user ++ b'@' ∷ place) ++ query_part query) b'#' ≡ false
  pub main_query : includes (user ++ b'@' ∷ place) b'?' ≡ false
  pub place_at : includes place b'@' ≡ false

cut_query :
    (main : Text) (query : Option Text)
    → includes main b'?' ≡ false
    → (before (index_of (main ++ query_part query) b'?') (main ++ query_part query) ≡ main)
      × (or_else (past (index_of (main ++ query_part query) b'?') (main ++ query_part query)) []
          ≡ or_else query [])
cut_query main none h =
    let absent = index_of-absent main b'?' h in rw append-nil (rw absent refl, rw absent refl)
cut_query main (some q) h = let (a, b) = cut_at main q b'?' h in (a, ap (λ o. or_else o []) b)

-- `cut` in its steps
abbrev host_cut : Option Text → Text → Text → Link
host_cut fragment query host_part =
    let mark = last_index_of host_part b'@' in
    record {
      fragment = fragment;
      query = query;
      user = Option.map (λ i. take i host_part) mark;
      host_port = right_of mark host_part;
    }

abbrev query_cut : Option Text → Text → Link
query_cut fragment main =
    host_cut fragment (or_else (past (index_of main b'?') main) [])
      (before (index_of main b'?') main)

host_cut-at :
    (fragment : Option Text) (query user place : Text)
    → includes place b'@' ≡ false
    → host_cut fragment query (user ++ b'@' ∷ place)
      ≡ record { fragment = fragment; query = query; user = some user; host_port = place }
host_cut-at fragment query user place h =
    rw
      (
        last_index_of-append user place b'@' h,
        take-append user (b'@' ∷ place),
        drop_past user b'@' place,
      )
      refl

pub cut-link_text :
    (user place : Text) (query : Option Text) (tag : Text)
    → IsClean user place query
    → cut (link_text user place query tag) ≡ record {
      fragment = some tag;
      query = or_else query [];
      user = some user;
      host_port = place;
    }
cut-link_text user place query tag clean =
    let (a, b) = cut_at ((user ++ b'@' ∷ place) ++ query_part query) tag b'#' clean.main_hash in
    let (c, d) = cut_query (user ++ b'@' ∷ place) query clean.main_query in
    (λ i. query_cut (b i) (a i))
    ∙ (λ i. host_cut (some tag) (d i) (c i))
    ∙ host_cut-at (some tag) (or_else query []) user place clean.place_at
