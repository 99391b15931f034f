-- ===== src/Nodes/Ports/Moves.antt =====
-- apps/server/src/nodes/nodes.service.ts: a node that is given another port of its server.
use nextpanel.Prelude.{
  ℕ, ◌≡◌, refl, sym, subst, ◌∙◌, false, ◌⊎◌, inl, inr, Option, none, some, List, [], ◌∷◌, ◌++◌,
  text_eq, text_eq_refl, All, Option-cases, if◌then◌else◌,
}
use nextpanel.Nodes.Model.{Node, Implementation}
use nextpanel.Nodes.Ports.{
  node_ports, to_list, is_at, taken_stats_port, derived_stats_port, candidate_ports, has_port,
}
use nextpanel.Nodes.Ports.Free.{Misses}
use nextpanel.Nodes.Ports.Apart.{Apart, Fits}

module _ {ℓ κ} {A : Type ℓ} (P : A → Type κ) where
  All-left : (xs ys : List A) → All P (xs ++ ys) → All P xs
  All-left [] ys h = tt
  All-left (x ∷ xs) ys (h, k) = (h, All-left xs ys k)

  All-right : (xs ys : List A) → All P (xs ++ ys) → All P ys
  All-right [] ys h = h
  All-right (x ∷ xs) ys (h, k) = All-right xs ys k

listening : Node → List ℕ
listening x = x.listen_port ∷ to_list (taken_stats_port x)

-- Nodes that are apart keep their ports from each other on the server of the one, and where it leaves.
pub Apart-Fits : (x z : Node) → Apart x z → Fits x z
unfolding node_ports listening
Apart-Fits x z h =
    let here : Misses (node_ports x.server_id z)
        (if text_eq x.server_id x.server_id then listening x else []) =
      All-left (λ p. has_port (node_ports x.server_id z) p ≡ false) _
        (if is_at x.server_id x.exit_server_id then to_list x.exit_port else []) (h x.server_id) in
    (
      rw (text_eq_refl x.server_id) at here,
      λ e f.
          let leaves =
            subst (λ o. Misses (node_ports e z) (if is_at e o then to_list x.exit_port else [])) f
              (All-right (λ p. has_port (node_ports e z) p ≡ false)
                (if text_eq x.server_id e then listening x else []) _ (h e)) in
          rw (text_eq_refl e) at leaves,
    )

-- Where a node goes that keeps its server and its exit.
pub record Moved (x : Node) (port : ℕ) (impl : Option Implementation) (y : Node) : Type 0 where
  pub same_server : y.server_id ≡ x.server_id
  pub new_port : y.listen_port ≡ port
  pub new_implementation : y.implementation ≡ impl
  pub same_exit : y.exit_server_id ≡ x.exit_server_id
  pub same_exit_port : y.exit_port ≡ x.exit_port

taken_kept :
    (x y : Node) (port : ℕ) (impl : Option Implementation)
    → Moved x port impl y
    → y.stats_port ≡ x.stats_port
    → (taken_stats_port y ≡ derived_stats_port port impl)
      ⊎ (taken_stats_port y ≡ taken_stats_port x)
unfolding taken_stats_port
taken_kept x y port impl m e = elim (Option-cases x.stats_port) [
  | inl f ↦ inl (λ i. elim ((e ∙ f) i) [
    | some p ↦ some p
    | none ↦ derived_stats_port (m.new_port i) (m.new_implementation i)
  ])
  | inr (q, f) ↦ inr (rw (e ∙ f, f) refl)
]

taken_fresh :
    (x y : Node) (port : ℕ) (impl : Option Implementation)
    → Moved x port impl y
    → y.stats_port ≡ derived_stats_port port impl
    → taken_stats_port y ≡ derived_stats_port port impl
unfolding taken_stats_port
taken_fresh x y port impl m e = elim (Option-cases (derived_stats_port port impl)) [
  | inl f ↦ λ i. elim ((e ∙ f) i) [
    | some p ↦ some p
    | none ↦ derived_stats_port (m.new_port i) (m.new_implementation i)
  ]
  | inr (q, f) ↦ rw (e ∙ f, f) refl
]

-- A node that keeps its server and its exit fits where its new ports are free.
pub Moved-Fits :
    (x y z : Node) (port : ℕ) (impl : Option Implementation)
    → Moved x port impl y
    → (y.stats_port ≡ x.stats_port) ⊎ (y.stats_port ≡ derived_stats_port port impl)
    → Apart x z
    → Misses (node_ports x.server_id z) (candidate_ports port impl)
    → Fits y z
Moved-Fits x y z port impl m s h free =
    let fits = Apart-Fits x z h in
    let stats : (taken_stats_port y ≡ derived_stats_port port impl)
        ⊎ (taken_stats_port y ≡ taken_stats_port x) =
      elim s [
        | inl e ↦ taken_kept x y port impl m e
        | inr e ↦ inl (taken_fresh x y port impl m e)
      ] in
    let place =
      λ (t : Option ℕ) (e : taken_stats_port y ≡ t)
          (k : Misses (node_ports x.server_id z) (port ∷ to_list t)).
        let moved : Misses (node_ports y.server_id z) (port ∷ to_list (taken_stats_port y)) =
          subst (λ v. Misses (node_ports v z) (port ∷ to_list (taken_stats_port y)))
            (sym m.same_server)
            (subst (λ t. Misses (node_ports x.server_id z) (port ∷ to_list t)) (sym e) k) in
        subst (λ p. Misses (node_ports y.server_id z) (p ∷ to_list (taken_stats_port y)))
          (sym m.new_port) moved in
    (
      elim stats [ inl e ↦ place _ e free | inr e ↦ place _ e (free.0, fits.0.1) ],
      λ e f.
          subst (λ p. Misses (node_ports e z) (to_list p)) (sym m.same_exit_port)
            (fits.1 e (sym m.same_exit ∙ f)),
    )
