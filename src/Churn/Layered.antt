-- ===== src/Churn/Layered.antt =====
-- A node list in which every parent comes first makes a graph without cycles (`newEngine` of
-- internal/chaos/engine.go).
use dizzy.Prelude.{
  ℕ, suc, ◌+◌, ◌-◌, ◌<◌, ◌≤◌, ◌≡◌, refl, sym, subst, ◌∙◌, true, String, str_eq, eq_iff,
  Option-cases, some, inl, inr, List, [], ◌∷◌, ◌++◌, map, length, contains, contains-append,
  Bool-cases, ◌==◌, ==_iff, All, In, Fresh, if◌then◌else◌, arith,
}
use dizzy.Churn.Graph.{
  Node, Links, index_keys, find_key, link, link_parents, link_nodes, new_links, new_graph,
  new_graph-dual,
}
use dizzy.Churn.Rolling.{IsLayered}

-- Each parent is the key of an earlier node, or one of `seen`.
abbrev pub IsOrdered : List String → List Node → Type 0
IsOrdered seen [] = Unit
IsOrdered seen (nd ∷ nds) = All (λ pk. In pk seen) nd.parents × IsOrdered (nd.key ∷ seen) nds

abbrev pub keys : List Node → List String
keys nds = map (λ nd. nd.key) nds

Fresh-apart : (seen xs : List String) (x : String) → Fresh seen xs → In x seen → ¬ In x xs
Fresh-apart seen [] x f m n = elim n [ ]
Fresh-apart seen (y ∷ ys) x f m (In.first z e) = f.0 (subst (λ k. In k seen) (sym e) m)
Fresh-apart seen (y ∷ ys) x f m (In.later n) = Fresh-apart (y ∷ seen) ys x f.1 (In.later m) n

find-index_keys :
    (k : String) (i : ℕ) (nds : List Node) (acc : List (String × ℕ))
    → ¬ In k (keys nds)
    → find_key k (index_keys i nds acc) ≡ find_key k acc
unfolding index_keys find_key
find-index_keys k i [] acc h = refl
find-index_keys k i (nd ∷ nds) acc h = elim (Bool-cases (str_eq nd.key k)) [
  | inl e ↦ absurd (h (In.first nd.key ((eq_iff nd.key k).0 e)))
  | inr e ↦
      find-index_keys k (suc i) nds ((nd.key, i) ∷ acc) (λ m. h (In.later m))
      ∙ rw (e, find_key) refl
]

-- Every number that a key leads to is below a bound.
abbrev Bounded : ℕ → List (String × ℕ) → Type 0
Bounded i index = (k : String) (j : ℕ) → find_key k index ≡ some j → j < i

Bounded-cons :
    (i : ℕ) (k : String) (acc : List (String × ℕ)) → Bounded i acc → Bounded (suc i) ((k, i) ∷ acc)
unfolding find_key
Bounded-cons i k acc b q j e = elim (Bool-cases (str_eq k q)) [
  | inl s ↦ ground (arith, s, e)
  | inr s ↦
      let old : find_key q acc ≡ some j =
        subst (λ t. (if t then some i else find_key q acc) ≡ some j) s e in
      omega (arith, b q j old)
]

-- A child has a greater number than its parent, and is a node.
abbrev Descends : ℕ → Links → Type 0
Descends n l = (i c : ℕ) → contains (l.children i) c ≡ true → (i < c) × (c < n)

link-Descends : (n i pi : ℕ) (l : Links) → pi < i → i < n → Descends n l → Descends n (link i pi l)
unfolding link
link-Descends n i pi l lt le d a c h = elim (Bool-cases (pi == a)) [
  | inl e ↦
      let here : contains (l.children pi ++ i ∷ []) c ≡ true =
        subst (λ t. contains (if t then l.children pi ++ i ∷ [] else l.children a) c ≡ true) e h in
      let either = sym (contains-append (l.children pi) (i ∷ []) c) ∙ here in
      let same : pi ≡ a = (==_iff pi a).0 e in
      elim (Bool-cases (contains (l.children pi) c)) [
        | inl old ↦ let x = d pi c old in (omega (arith, x.0, same), x.1)
        | inr new ↦
            let x : i ≡ c = ground (arith, either, new) in
            (omega (arith, x, same, lt), omega (arith, x, le))
      ]
  | inr e ↦
      d a c
        (subst (λ t. contains (if t then l.children pi ++ i ∷ [] else l.children a) c ≡ true) e h)
]

-- A parent that comes first is linked below the node, whatever the nodes after it.
link_parents-Descends :
    (n i : ℕ) (nds : List Node) (seen : List String) (acc : List (String × ℕ)) (pks : List String)
    (l : Links)
    → i < n
    → Bounded i acc
    → Fresh seen (keys nds)
    → All (λ pk. In pk seen) pks
    → Descends n l
    → Descends n (link_parents (index_keys i nds acc) i pks l)
unfolding link_parents
link_parents-Descends n i nds seen acc [] l lt b f h d = d
link_parents-Descends n i nds seen acc (pk ∷ pks) l lt b f h d =
    let same : find_key pk (index_keys i nds acc) ≡ find_key pk acc =
      find-index_keys pk i nds acc (Fresh-apart seen (keys nds) pk f h.0) in
    link_parents-Descends n i nds seen acc pks _ lt b f h.1 (elim (Option-cases (find_key pk acc)) [
      | inl e ↦ rw (same, e) d
      | inr (pi, e) ↦ rw (same, e) (link-Descends n i pi l (b pk pi e) lt d)
    ])

link_nodes-Descends :
    (n i : ℕ) (nds : List Node) (seen : List String) (acc : List (String × ℕ)) (l : Links)
    → i + length nds ≤ n
    → Bounded i acc
    → Fresh seen (keys nds)
    → IsOrdered seen nds
    → Descends n l
    → Descends n (link_nodes (index_keys i nds acc) i nds l)
unfolding link_nodes index_keys
link_nodes-Descends n i [] seen acc l le b f o d = d
link_nodes-Descends n i (nd ∷ nds) seen acc l le b f o d =
    link_nodes-Descends n (suc i) nds (nd.key ∷ seen) ((nd.key, i) ∷ acc) _ (omega (arith, le))
      (Bounded-cons i nd.key acc b) f.1 o.1
      (link_parents-Descends n i (nd ∷ nds) seen acc nd.parents l (omega (arith, le)) b f o.0 d)

-- Where no two nodes have one key and each parent is the key of an earlier node, no node of the
-- graph that `newEngine` builds is its own ancestor: a child has a lower rank than its parent.
pub new_graph-IsLayered :
    (nodes : List Node) (max_parallel concurrency : ℕ)
    → 0 < length nodes
    → Fresh [] (keys nodes)
    → IsOrdered [] nodes
    → IsLayered (new_graph nodes max_parallel concurrency) (λ i. length nodes - suc i)
unfolding new_graph new_links
new_graph-IsLayered nodes m c some_node f o =
    let low =
      link_nodes-Descends (length nodes) 0 nodes [] []
        (record { parents = λ _. []; children = λ _. [] }) (omega arith) (λ k j e. cc e) f o
        (λ i c h. cc h) in
    record {
      dual = new_graph-dual nodes m c;
      lower = λ i c h. omega (arith, (low i c h).0, (low i c h).1);
      in_range = λ i c h. (low i c h).1;
      shallow = λ i. omega (arith, some_node);
    }
