-- ===== src/Nodes/Ports/Rewrites.antt =====
-- apps/server/src/nodes/nodes.service.ts: changes of a row that leave the ports of the nodes apart.
use nextpanel.Prelude.{
  ◌≡◌, refl, sym, subst, ap, true, false, ◌&&◌, some, List, [], ◌∷◌, Text, text_eq, text_eq_iff,
  All, All-map, All_find, Bool-cases, inl, inr, find, ◌∙◌, find_holds, find_of_key, update_where,
  arith,
}
use nextpanel.Nodes.Model.{Node}
use nextpanel.Nodes.World.{has_node_id}
use nextpanel.Nodes.Ports.{node_ports}
use nextpanel.Nodes.Ports.Free.{Misses}
use nextpanel.Nodes.Ports.Apart.{Apart, PortsApart, Apart-sym}
use nextpanel.Nodes.Ports.Tables.{IsSound, node_id, update-IsSound, found_here}

-- The other rows fit the predicate.
abbrev pub Others : Text → (Node → Type 0) → List Node → Type 0
Others id P nodes = All (λ z. has_node_id id z ≡ false → P z) nodes

pub Others-map :
    (id : Text) (P Q : Node → Type 0) (nodes : List Node)
    → ((z : Node) → P z → Q z)
    → Others id P nodes
    → Others id Q nodes
Others-map id P Q nodes f h = All-map _ _ (λ z k e. f z (k e)) nodes h

Apart-Others :
    (id : Text) (y : Node) (xs : List Node)
    → PortsApart xs
    → find (has_node_id id) xs ≡ some y
    → Others id (Apart y) xs
Apart-Others id y [] h e = tt
Apart-Others id y (x ∷ xs) (h, hs) e = elim (Bool-cases (has_node_id id x)) [
  | inl here ↦
      let same : x ≡ y = found_here id (λ n. n) (λ n. refl) x y xs here e in
      (
        λ f. let bad : true ≡ false = sym here ∙ f in cc,
        subst (λ t. Others id (Apart t) xs) same (All-map _ _ (λ z a f. a) xs h),
      )
  | inr there ↦
      let e' : find (has_node_id id) xs ≡ some y = rw there at e in
      (
        λ f. Apart-sym x y (All_find (Apart x) (has_node_id id) xs y h e'),
        Apart-Others id y xs hs e',
      )
]

-- The row under an identifier takes no port of another's.
pub row-Apart :
    (id : Text) (y : Node) (xs : List Node)
    → IsSound xs
    → find (has_node_id id) xs ≡ some y
    → Others id (Apart y) xs
row-Apart id y xs h e = Apart-Others id y xs h.apart e

-- A row that its owner finds is the one under its identifier.
pub found_by_id :
    (id user : Text) (y : Node) (xs : List Node)
    → IsSound xs
    → find (λ n. has_node_id id n && text_eq n.user_id user) xs ≡ some y
    → find (has_node_id id) xs ≡ some y
found_by_id id user y xs h e =
    let both = find_holds (λ n. has_node_id id n && text_eq n.user_id user) xs y e in
    let is : y.id ≡ id = (text_eq_iff y.id id).0 (ground (arith, both)) in
    subst (λ k. find (has_node_id k) xs ≡ some y) is
      (find_of_key node_id (λ n. has_node_id id n && text_eq n.user_id user) xs y h.keyed e)

pub Others-update :
    (id : Text) (f : Node → Node) (P : Node → Type 0) (xs : List Node)
    → ((y : Node) → (f y).id ≡ y.id)
    → Others id P xs
    → Others id P (update_where (has_node_id id) f xs)
unfolding update_where
Others-update id f P [] same h = tt
Others-update id f P (x ∷ xs) same (h, hs) = elim (Bool-cases (has_node_id id x)) [
  | inl here ↦ rw here (
    λ e. let bad : true ≡ false = sym here ∙ (ap (λ k. text_eq k id) (sym (same x)) ∙ e) in cc,
    Others-update id f P xs same hs,
  )
  | inr there ↦ rw there (h, Others-update id f P xs same hs)
]

-- A change that leaves the row's ports as they are.
pub update_place-IsSound :
    (id : Text) (f : Node → Node) (y : Node) (xs : List Node)
    → ((n : Node) → (f n).id ≡ n.id)
    → ((server : Text) → node_ports server (f y) ≡ node_ports server y)
    → IsSound xs
    → find (has_node_id id) xs ≡ some y
    → IsSound (update_where (has_node_id id) f xs)
update_place-IsSound id f y xs same ports h e = update-IsSound id f same y xs h e (
    Others-map id (Apart y) (Apart (f y)) xs
      (λ z a server. subst (λ ps. Misses (node_ports server z) ps) (sym (ports server)) (a server))
      (row-Apart id y xs h e))
