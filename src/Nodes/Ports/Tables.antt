-- ===== src/Nodes/Ports/Tables.antt =====
-- apps/server/src/nodes/nodes.service.ts: the table Node keeps its nodes' ports apart when a row is
-- added, changed or deleted.
use nextpanel.Prelude.{
  ◌≡◌, refl, sym, subst, ◌∙◌, Bool, true, false, some, List, [], ◌∷◌, Text, text_eq_iff, All, arith,
  Bool-cases, inl, inr, any, find, keep, update_where, update_where_none, Keyed, has_key,
}
use mathlib.Core.Option.{some-injective}
use nextpanel.Nodes.Model.{Node}
use nextpanel.Nodes.World.{has_node_id}
use nextpanel.Nodes.Ports.Apart.{Apart, PortsApart, Apart-sym}

abbrev pub node_id : Node → Text
node_id node = node.id

-- The identifiers are distinct, and no two nodes share a port of a server.
pub record IsSound (nodes : List Node) : Type 0 where
  pub keyed : Keyed node_id nodes
  pub apart : PortsApart nodes

any-keep :
    (p : Node → Bool) (k : Text) (xs : List Node)
    → any (has_key node_id k) xs ≡ false
    → any (has_key node_id k) (keep p xs) ≡ false
any-keep p k [] h = refl
any-keep p k (x ∷ xs) h = ground (arith, any-keep p k xs)

All-keep {ℓ} : (P : Node → Type ℓ) (p : Node → Bool) (xs : List Node) → All P xs → All P (keep p xs)
All-keep P p [] h = tt
All-keep P p (x ∷ xs) (h, hs) = elim (Bool-cases (p x)) [
  | inl e ↦ rw e (h, All-keep P p xs hs)
  | inr e ↦ rw e (All-keep P p xs hs)
]

pub keep-IsSound : (p : Node → Bool) (xs : List Node) → IsSound xs → IsSound (keep p xs)
keep-IsSound p [] h = h
keep-IsSound p (x ∷ xs) h =
    let rest : IsSound (keep p xs) =
      keep-IsSound p xs (record { keyed = h.keyed.1; apart = h.apart.1 }) in
    elim (Bool-cases (p x)) [
      | inl e ↦ rw e (record {
        keyed = (any-keep p x.id xs h.keyed.0, rest.keyed);
        apart = (All-keep (Apart x) p xs h.apart.0, rest.apart);
      })
      | inr e ↦ rw e rest
    ]

module _ (id : Text) (f : Node → Node) (same : (y : Node) → (f y).id ≡ y.id) where
  any-update :
      (k : Text) (xs : List Node)
      → any (has_key node_id k) (update_where (has_node_id id) f xs) ≡ any (has_key node_id k) xs
  unfolding update_where
  any-update k [] = refl
  any-update k (x ∷ xs) = ground (arith, same x, any-update k xs)

  update-Keyed :
      (xs : List Node) → Keyed node_id xs → Keyed node_id (update_where (has_node_id id) f xs)
  unfolding update_where
  update-Keyed [] h = tt
  update-Keyed (x ∷ xs) (h, hs) =
      let at = λ (z : Node) (e : z.id ≡ x.id).
        subst (λ k. any (has_key node_id k) (update_where (has_node_id id) f xs) ≡ false) (sym e)
          (any-update x.id xs ∙ h) in
      elim (Bool-cases (has_node_id id x)) [
        | inl e ↦ rw e (at (f x) (same x), update-Keyed xs hs)
        | inr e ↦ rw e (at x refl, update-Keyed xs hs)
      ]

  alone :
      (x : Node) (xs : List Node)
      → has_node_id id x ≡ true
      → any (has_key node_id x.id) xs ≡ false
      → update_where (has_node_id id) f xs ≡ xs
  alone x xs e h =
      update_where_none (has_node_id id) f xs
        (subst (λ k. any (has_key node_id k) xs ≡ false) ((text_eq_iff x.id id).0 e) h)

  pub found_here :
      (x y : Node) (xs : List Node)
      → has_node_id id x ≡ true
      → find (has_node_id id) (x ∷ xs) ≡ some y
      → x ≡ y
  found_here x y xs e h = some-injective x y (rw e at h)

  update-All :
      (x y : Node) (xs : List Node)
      → All (Apart x) xs
      → Keyed node_id xs
      → find (has_node_id id) xs ≡ some y
      → Apart x (f y)
      → All (Apart x) (update_where (has_node_id id) f xs)
  unfolding update_where
  update-All x y [] h d e a = tt
  update-All x y (z ∷ zs) (h, hs) (d, ds) e a = elim (Bool-cases (has_node_id id z)) [
    | inl here ↦
        rw (here, alone z zs here d)
          (subst (λ t. Apart x (f t)) (sym (found_here z y zs here e)) a, hs)
    | inr there ↦ rw there (h, update-All x y zs hs ds (rw there at e) a)
  ]

  others :
      (y : Node) (xs : List Node)
      → All (λ z. has_node_id id z ≡ false → Apart (f y) z) xs
      → any (has_node_id id) xs ≡ false
      → All (Apart (f y)) xs
  others y [] c h = tt
  others y (x ∷ xs) (c, cs) h = elim (Bool-cases (has_node_id id x)) [
    | inl e ↦ let bad = rw e at h in cc
    | inr e ↦ (c e, others y xs cs (rw e at h))
  ]

  rest_lacks :
      (x : Node) (xs : List Node)
      → has_node_id id x ≡ true
      → any (has_key node_id x.id) xs ≡ false
      → any (has_node_id id) xs ≡ false
  rest_lacks x xs e h =
      subst (λ k. any (has_key node_id k) xs ≡ false) ((text_eq_iff x.id id).0 e) h

  -- The row under the identifier is rewritten so that it stays apart from the others.
  pub update-PortsApart :
      (y : Node) (xs : List Node)
      → Keyed node_id xs
      → find (has_node_id id) xs ≡ some y
      → All (λ z. has_node_id id z ≡ false → Apart (f y) z) xs
      → PortsApart xs
      → PortsApart (update_where (has_node_id id) f xs)
  unfolding update_where
  update-PortsApart y [] d e c h = tt
  update-PortsApart y (x ∷ xs) (d, ds) e (c, cs) (h, hs) = elim (Bool-cases (has_node_id id x)) [
    | inl here ↦
        rw (here, alone x xs here d)
          (
            subst (λ t. All (Apart (f t)) xs) (sym (found_here x y xs here e))
                (others y xs cs (rest_lacks x xs here d)),
            hs,
          )
    | inr there ↦ rw there (
      update-All x y xs h ds (rw there at e) (Apart-sym (f y) x (c there)),
      update-PortsApart y xs ds (rw there at e) cs hs,
    )
  ]

  pub update-IsSound :
      (y : Node) (xs : List Node)
      → IsSound xs
      → find (has_node_id id) xs ≡ some y
      → All (λ z. has_node_id id z ≡ false → Apart (f y) z) xs
      → IsSound (update_where (has_node_id id) f xs)
  update-IsSound y xs h e c = record {
    keyed = update-Keyed xs h.keyed;
    apart = update-PortsApart y xs h.keyed e c h.apart;
  }
