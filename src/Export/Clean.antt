-- ===== src/Export/Clean.antt =====
-- The parts of a link of apps/server/src/subscriptions/uri-builder.ts hold no character at which the
-- importer cuts it elsewhere, and no white space.
use nextpanel.Prelude.{
  ℕ, ◌≡◌, refl, ◌∙◌, Bool, true, false, not, Option, none, some, [], ◌∷◌, ◌++◌, Text, ◌==◌, arith,
  all, includes, is_space, trim,
}
use nextpanel.Prelude.Trim.{NoSpace, trim-NoSpace}
use nextpanel.Uri.External.{or_else}
use nextpanel.Export.ShareUri.{link_text, query_part, filled_query}
use nextpanel.Export.Tokens.{
  is_clear, IsToken, includes-append, includes_none, no_hash, no_query, no_at, no_space,
}
use nextpanel.Export.Places.{is_authority, all-append, all_weak}
use nextpanel.Export.Cut.{IsClean}

abbrev pub is_visible : ℕ → Bool
is_visible c = not (is_space c)

pub visible_token : (c : ℕ) → is_clear c ≡ true → is_visible c ≡ true
visible_token c h = ground (arith, no_space c h)

authority_hash : (c : ℕ) → is_authority c ≡ true → (c == b'#') ≡ false
authority_hash c h = ground (arith, no_hash c)

authority_query : (c : ℕ) → is_authority c ≡ true → (c == b'?') ≡ false
authority_query c h = ground (arith, no_query c)

authority_at : (c : ℕ) → is_authority c ≡ true → (c == b'@') ≡ false
authority_at c h = ground (arith, no_at c)

authority_visible : (c : ℕ) → is_authority c ≡ true → is_visible c ≡ true
unfolding is_space
authority_visible c h = ground (arith, no_space c)

abbrev pub IsQuery : Option Text → Type 0
IsQuery none = Unit
IsQuery (some query) = IsToken query

pub IsQuery-filled_query : (query : Text) → IsToken query → IsQuery (filled_query query)
IsQuery-filled_query [] h = tt
IsQuery-filled_query (c ∷ s) h = h

pub or_else-filled_query : (query : Text) → or_else (filled_query query) [] ≡ query
or_else-filled_query [] = refl
or_else-filled_query (c ∷ s) = refl

query_hash : (query : Option Text) → IsQuery query → includes (query_part query) b'#' ≡ false
query_hash none h = refl
query_hash (some query) h = includes_none is_clear b'#' no_hash query h

query_visible : (query : Option Text) → IsQuery query → all is_visible (query_part query) ≡ true
unfolding is_space
query_visible none h = refl
query_visible (some query) h = all_weak is_clear is_visible visible_token query h

-- the user and the place, joined, without a unit that neither holds
host_part_without :
    (user place : Text) (d : ℕ)
    → IsToken user
    → all is_authority place ≡ true
    → ((c : ℕ) → is_clear c ≡ true → (c == d) ≡ false)
    → ((c : ℕ) → is_authority c ≡ true → (c == d) ≡ false)
    → (b'@' == d) ≡ false
    → includes (user ++ b'@' ∷ place) d ≡ false
host_part_without user place d named placed f g at =
    includes-append d user (b'@' ∷ place)
    ∙ rw (includes_none is_clear d f user named, at) (includes_none is_authority d g place placed)

module _ (user place : Text) (query : Option Text) (named : IsToken user)
    (placed : all is_authority place ≡ true) (asked : IsQuery query) where
  pub link-IsClean : IsClean user place query
  link-IsClean = record {
    main_hash =
        includes-append b'#' (user ++ b'@' ∷ place) (query_part query)
        ∙ rw (host_part_without user place b'#' named placed no_hash authority_hash refl)
            (query_hash query asked);
    main_query = host_part_without user place b'?' named placed no_query authority_query refl;
    place_at = includes_none is_authority b'@' authority_at place placed;
  }

  pub link_visible :
      (tag : Text) → IsToken tag → all is_visible (link_text user place query tag) ≡ true
  unfolding is_space
  link_visible tag tagged =
      all-append is_visible ((user ++ b'@' ∷ place) ++ query_part query) (b'#' ∷ tag)
        (all-append is_visible (user ++ b'@' ∷ place) (query_part query)
          (all-append is_visible user (b'@' ∷ place)
            (all_weak is_clear is_visible visible_token user named)
            (all_weak is_authority is_visible authority_visible place placed))
          (query_visible query asked))
        (all_weak is_clear is_visible visible_token tag tagged)

NoSpace-all : (s : Text) → all is_visible s ≡ true → NoSpace s
NoSpace-all [] h = tt
NoSpace-all (c ∷ s) h = (ground arith, NoSpace-all s (ground arith))

-- A link is not trimmed.
pub trim-visible : (s : Text) → all is_visible s ≡ true → trim s ≡ s
trim-visible s h = trim-NoSpace s (NoSpace-all s h)
