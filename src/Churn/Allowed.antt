-- ===== src/Churn/Allowed.antt =====
-- What `step` may choose (internal/chaos/engine.go), whatever the generator draws.
use dizzy.Prelude.{
  ℕ, ◌<◌, ◌≡◌, Bool, true, ◌&&◌, List, [], ◌∷◌, length, select, All, All-get_or, All-select,
  All-range_from, arith, Bool-cases, inl, inr, if_both,
}
use dizzy.Churn.Graph.{Graph}
use dizzy.Churn.Choice.{
  Source, Knobs, Choice, creates, deletes, mutates, nothing, indices, can_create, can_delete,
  can_mutate, is_eager, create_candidates, eager_create_candidates, delete_candidates,
  mutate_candidates, p_create, draw, choose_churn, choose_mutate, choose_eager, choose,
}

-- The decision is one that the candidate functions offer.
abbrev pub Allowed : Graph → (ℕ → Bool) → (ℕ → Bool) → Choice → Type 0
Allowed g here mutated (creates i) = (i < length g.nodes) × (can_create g here i ≡ true)
Allowed g here mutated (deletes i) = (i < length g.nodes) × (can_delete g here i ≡ true)
Allowed g here mutated (mutates i) = (i < length g.nodes) × (can_mutate g here mutated i ≡ true)
Allowed g here mutated nothing = Unit

-- `Intn(n)` lies in [0, n) for n > 0, as math/rand documents.
abbrev pub IsFair : Source → Type 0
IsFair src = (r : src.Rng) (n : ℕ) → 0 < n → (src.intn r n).0 < n

module _ (g : Graph) (here mutated : ℕ → Bool) where
  abbrev Fits : (ℕ → Bool) → ℕ → Type 0
  Fits can i = (i < length g.nodes) × (can i ≡ true)

  candidates-Fits : (can : ℕ → Bool) → All (Fits can) (select can (indices g))
  candidates-Fits can =
      All-select (λ i. i < length g.nodes) can (indices g)
        (All-range_from (length g.nodes) 0 (length g.nodes) (omega arith))

  weaken :
      (can : ℕ → Bool) (xs : List ℕ)
      → All (λ i. Fits can i × (is_eager g i ≡ true)) xs
      → All (Fits can) xs
  weaken can [] h = tt
  weaken can (x ∷ xs) h = (h.0.0, weaken can xs h.1)

  create_candidates-Fits : All (Fits (can_create g here)) (create_candidates g here)
  unfolding create_candidates
  create_candidates-Fits = candidates-Fits (can_create g here)

  eager-Fits : All (Fits (can_create g here)) (eager_create_candidates g here)
  unfolding eager_create_candidates
  eager-Fits =
      if_both (All (Fits (can_create g here))) g.eager
        (weaken (can_create g here) _
          (All-select (Fits (can_create g here)) (is_eager g) _ create_candidates-Fits))
        tt

  delete_candidates-Fits : All (Fits (can_delete g here)) (delete_candidates g here)
  unfolding delete_candidates
  delete_candidates-Fits = candidates-Fits (can_delete g here)

  mutate_candidates-Fits : All (Fits (can_mutate g here mutated)) (mutate_candidates g here mutated)
  unfolding mutate_candidates
  mutate_candidates-Fits = candidates-Fits (can_mutate g here mutated)

module _ (src : Source) (fair : IsFair src) (g : Graph) (here mutated : ℕ → Bool) where
  abbrev Good : Choice × src.Rng → Type 0
  Good c = Allowed g here mutated c.0

  draw_creates :
      (cs : List ℕ) (r : src.Rng)
      → 0 < length cs
      → All (Fits g here mutated (can_create g here)) cs
      → Good (draw src creates cs r)
  draw_creates cs r h a = All-get_or _ cs _ 0 a (fair r (length cs) h)

  draw_deletes :
      (cs : List ℕ) (r : src.Rng)
      → 0 < length cs
      → All (Fits g here mutated (can_delete g here)) cs
      → Good (draw src deletes cs r)
  draw_deletes cs r h a = All-get_or _ cs _ 0 a (fair r (length cs) h)

  draw_mutates :
      (cs : List ℕ) (r : src.Rng)
      → 0 < length cs
      → All (Fits g here mutated (can_mutate g here mutated)) cs
      → Good (draw src mutates cs r)
  draw_mutates cs r h a = All-get_or _ cs _ 0 a (fair r (length cs) h)

  choose_churn-Good :
      (p : src.Float) (cs ds : List ℕ) (r : src.Rng)
      → All (Fits g here mutated (can_create g here)) cs
      → All (Fits g here mutated (can_delete g here)) ds
      → Good (choose_churn src p cs ds r)
  unfolding choose_churn
  choose_churn-Good p [] [] r a b = tt
  choose_churn-Good p (c ∷ cs) [] r a b = draw_creates (c ∷ cs) r (omega arith) a
  choose_churn-Good p [] (d ∷ ds) r a b = draw_deletes (d ∷ ds) r (omega arith) b
  choose_churn-Good p (c ∷ cs) (d ∷ ds) r a b =
      elim (Bool-cases (src.float_lt (src.float64 r).0 p)) [
        | inl e ↦ rw e (draw_creates (c ∷ cs) (src.float64 r).1 (omega arith) a)
        | inr e ↦ rw e (draw_deletes (d ∷ ds) (src.float64 r).1 (omega arith) b)
      ]

  choose_mutate-Good :
      (ms : List ℕ) (otherwise : src.Rng → Choice × src.Rng) (r : src.Rng)
      → All (Fits g here mutated (can_mutate g here mutated)) ms
      → ((r' : src.Rng) → Good (otherwise r'))
      → Good (choose_mutate src ms otherwise r)
  unfolding choose_mutate
  choose_mutate-Good [] otherwise r a b = b r
  choose_mutate-Good (m ∷ ms) otherwise r a b = draw_mutates (m ∷ ms) r (omega arith) a

  choose_eager-Good :
      (cs : List ℕ) (otherwise : src.Rng → Choice × src.Rng) (r : src.Rng)
      → All (Fits g here mutated (can_create g here)) cs
      → ((r' : src.Rng) → Good (otherwise r'))
      → Good (choose_eager src cs otherwise r)
  unfolding choose_eager
  choose_eager-Good [] otherwise r a b = b r
  choose_eager-Good (c ∷ cs) otherwise r a b = draw_creates (c ∷ cs) r (omega arith) a

  -- With a generator that draws indices in range, every decision is one that the candidate functions
  -- offer, at a node of the graph.
  pub choose-Allowed :
      (k : Knobs src.Float) (present : ℕ) (r : src.Rng)
      → Allowed g here mutated (choose src g k here mutated present r).0
  unfolding choose
  choose-Allowed k present r =
      let churn : (r' : src.Rng) → Good (choose_churn src _ _ _ r') = λ r'.
        choose_churn-Good (p_create src k present (length g.nodes)) _ _ r'
          (create_candidates-Fits g here mutated) (delete_candidates-Fits g here mutated) in
      choose_eager-Good _ _ r (eager-Fits g here mutated) λ r1.
        if_both Good (g.has_mutable && src.float_lt src.nought k.resize_ratio)
          (if_both Good (src.float_lt (src.float64 r1).0 k.resize_ratio)
            (choose_mutate-Good _ _ (src.float64 r1).1 (mutate_candidates-Fits g here mutated)
              churn)
            (churn (src.float64 r1).1))
          (churn r1)
