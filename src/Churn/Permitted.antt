-- ===== src/Churn/Permitted.antt =====
-- The rules of a decision of `step` (internal/chaos/engine.go), written out on the graph.
use dizzy.Prelude.{
  ℕ, ◌<◌, ◌≡◌, ◌≢◌, Bool, true, false, not, List, [], ◌∷◌, str_eq, eq_iff, length, every, All,
  Bool-cases, inl, inr, arith,
}
use dizzy.Churn.Graph.{Graph, node_at}
use dizzy.Churn.Choice.{
  Source, Knobs, Choice, creates, deletes, mutates, nothing, set_whole, choose,
}
use dizzy.Churn.Allowed.{Allowed, IsFair, choose-Allowed}

-- A node is created only while it is absent and its parents are present. It is deleted only while it
-- is present and not pinned; outside a rolling set none of its children may be present, in one it
-- must be a root of the set, and the whole set present. It is mutated only while it is present, has
-- a mutation and, unless it is pinned, has not been mutated since its create.
abbrev pub Permitted : Graph → (ℕ → Bool) → (ℕ → Bool) → Choice → Type 0
Permitted g here mutated (creates i) =
    (i < length g.nodes) × (here i ≡ false) × All (λ p. here p ≡ true) (g.parents i)
Permitted g here mutated (deletes i) =
    (i < length g.nodes)
    × (here i ≡ true)
    × ((node_at g.nodes i).pinned ≡ false)
    × ((node_at g.nodes i).roll ≡ "" → All (λ c. here c ≡ false) (g.children i))
    × ((node_at g.nodes i).roll ≢ ""
        → (g.roll_root i ≡ true) × All (λ m. here m ≡ true) (g.sets (node_at g.nodes i).roll))
Permitted g here mutated (mutates i) =
    (i < length g.nodes)
    × (here i ≡ true)
    × ((node_at g.nodes i).has_mutate ≡ true)
    × (mutated i ≡ true → (node_at g.nodes i).pinned ≡ true)
Permitted g here mutated nothing = Unit

every-All : (p : ℕ → Bool) (xs : List ℕ) → every p xs ≡ true → All (λ x. p x ≡ true) xs
every-All p [] h = tt
every-All p (x ∷ xs) h = (ground (arith, h), every-All p xs (ground (arith, h)))

none-All :
    (p : ℕ → Bool) (xs : List ℕ) → every (λ x. not (p x)) xs ≡ true → All (λ x. p x ≡ false) xs
none-All p [] h = tt
none-All p (x ∷ xs) h = (ground (arith, h), none-All p xs (ground (arith, h)))

Allowed-Permitted :
    (g : Graph) (here mutated : ℕ → Bool) (c : Choice)
    → Allowed g here mutated c
    → Permitted g here mutated c
unfolding set_whole
Allowed-Permitted g here mutated nothing a = tt
Allowed-Permitted g here mutated (creates i) (lt, can) =
    (lt, ground (arith, can), every-All here (g.parents i) (ground (arith, can)))
Allowed-Permitted g here mutated (mutates i) (lt, can) =
    (lt, ground (arith, can), ground (arith, can), λ m. ground (arith, can, m))
Allowed-Permitted g here mutated (deletes i) (lt, can) =
    let roll = (node_at g.nodes i).roll in
    (
      lt,
      ground (arith, can),
      ground (arith, can),
      λ e. none-All here (g.children i) (ground (arith, can, (eq_iff roll "").1 e)),
      λ ne. elim (Bool-cases (str_eq roll "")) [
        | inl e ↦ absurd (ne ((eq_iff roll "").0 e))
        | inr e ↦ (ground (arith, can, e), every-All here (g.sets roll) (ground (arith, can, e)))
      ],
    )

-- With a generator that draws indices in range, every decision keeps the rules: only an absent node
-- whose parents are all present is created; only a present, unpinned node is deleted, outside a
-- rolling set without present children, in one as a root of a set that is wholly present; and only a
-- present node with a mutation is mutated, once between two creates unless it is pinned. Each is a
-- node of the graph.
pub choose-Permitted :
    (src : Source)
    → IsFair src
    → (g : Graph) (here mutated : ℕ → Bool) (k : Knobs src.Float) (present : ℕ) (r : src.Rng)
    → Permitted g here mutated (choose src g k here mutated present r).0
choose-Permitted src fair g here mutated k present r =
    Allowed-Permitted g here mutated _ (choose-Allowed src fair g here mutated k present r)
