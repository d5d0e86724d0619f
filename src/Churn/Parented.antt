-- ===== src/Churn/Parented.antt =====
-- The children that `newEngine` (internal/chaos/engine.go) links are the nodes that name a parent.
use dizzy.Prelude.{
  ℕ, suc, ◌+◌, ◌≡◌, ◌≢◌, refl, sym, subst, ◌∙◌, true, String, Option-cases, inl, inr, List, [], ◌∷◌,
  ◌++◌, contains, contains-append, Bool-cases, ◌==◌, if◌then◌else◌, arith,
}
use dizzy.Churn.Graph.{
  Node, Links, node_at, find_key, index_keys, link, link_parents, link_nodes, new_links, new_graph,
}

module _ (P : ℕ → Type 0) where
  -- Every child satisfies `P`.
  abbrev Children : Links → Type 0
  Children l = (a c : ℕ) → contains (l.children a) c ≡ true → P c

  link-Children : (i pi : ℕ) (l : Links) → P i → Children l → Children (link i pi l)
  unfolding link
  link-Children i pi l q h a c m = elim (Bool-cases (pi == a)) [
    | inl e ↦
        let here : contains (l.children pi ++ i ∷ []) c ≡ true =
          subst (λ t. contains (if t then l.children pi ++ i ∷ [] else l.children a) c ≡ true) e
            m in
        let either = sym (contains-append (l.children pi) (i ∷ []) c) ∙ here in
        elim (Bool-cases (contains (l.children pi) c)) [
          | inl old ↦ h pi c old
          | inr new ↦ let x : i ≡ c = ground (arith, either, new) in subst P x q
        ]
    | inr e ↦
        h a c
          (subst (λ t. contains (if t then l.children pi ++ i ∷ [] else l.children a) c ≡ true) e m)
  ]

  link_parents-Children :
      (index : List (String × ℕ)) (i : ℕ) (pks : List String) (l : Links)
      → (pks ≢ [] → P i)
      → Children l
      → Children (link_parents index i pks l)
  unfolding link_parents
  link_parents-Children index i [] l q h = h
  link_parents-Children index i (pk ∷ pks) l q h =
      let some_parent = q (λ e. cc e) in
      link_parents-Children index i pks _ (λ _. some_parent)
        (elim (Option-cases (find_key pk index)) [
          | inl e ↦ rw e h
          | inr (pi, e) ↦ rw e (link-Children i pi l some_parent h)
        ])

  -- `P` holds of the number of each node that has a parent.
  abbrev Marks : ℕ → List Node → Type 0
  Marks i [] = Unit
  Marks i (nd ∷ nds) = (nd.parents ≢ [] → P i) × Marks (suc i) nds

  link_nodes-Children :
      (index : List (String × ℕ)) (i : ℕ) (nds : List Node) (l : Links)
      → Marks i nds
      → Children l
      → Children (link_nodes index i nds l)
  unfolding link_nodes
  link_nodes-Children index i [] l q h = h
  link_nodes-Children index i (nd ∷ nds) l q h =
      link_nodes-Children index (suc i) nds _ q.1 (link_parents-Children index i nd.parents l q.0 h)

own-Marks :
    (f : ℕ → Node) (i : ℕ) (nds : List Node)
    → ((k : ℕ) → f (i + k) ≡ node_at nds k)
    → Marks (λ j. (f j).parents ≢ []) i nds
own-Marks f i [] h = tt
own-Marks f i (nd ∷ nds) h =
    let here : f i ≡ nd = subst (λ x. f x ≡ nd) (omega arith) (h 0) in
    (
      λ some_parent. rw here some_parent,
      own-Marks f (suc i) nds (λ k. subst (λ x. f x ≡ node_at nds k) (omega arith) (h (suc k))),
    )

-- A child in the graph that `newEngine` builds is a node that names a parent.
pub child-parents :
    (nodes : List Node) (m c a j : ℕ)
    → contains ((new_graph nodes m c).children a) j ≡ true
    → (node_at nodes j).parents ≢ []
unfolding new_graph new_links
child-parents nodes m c =
    link_nodes-Children (λ j. (node_at nodes j).parents ≢ []) (index_keys 0 nodes []) 0 nodes _
      (own-Marks (node_at nodes) 0 nodes
        (λ k. subst (λ x. node_at nodes x ≡ node_at nodes k) (omega arith) refl))
      (λ a j h. cc h)
