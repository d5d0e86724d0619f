-- ===== src/Churn/Pinned.antt =====
-- Pinned and rolling nodes (internal/chaos/engine.go): a pinned node stays, and an absent one is
-- created first.
use dizzy.Prelude.{
  ℕ, ◌≡◌, sym, ◌∙◌, Bool, true, false, ==_iff, ◌==◌, [], contains, arith, Bool-cases, inl, inr,
  subst,
}
use dizzy.Churn.Graph.{Graph, node_at, is_rolling}
use dizzy.Churn.State.{Sched, is_present}
use dizzy.Churn.Dispatch.{record_decision, sample_population}
use dizzy.Churn.Choice.{
  Source, Knobs, Choice, creates, deletes, mutates, nothing, can_create, is_eager,
}
use dizzy.Churn.Step.{perform, step}
use dizzy.Churn.Population.{
  IsSound, decide_create-present, decide_delete-present, decide_mutate-present,
}
use dizzy.Churn.Rolling.{IsLayered, Below, roll-not_Below}
use dizzy.Churn.Allowed.{Allowed, IsFair, choose-Allowed}

abbrev pub is_pinned : Graph → ℕ → Bool
is_pinned g i = (node_at g.nodes i).pinned

-- What the builders guarantee: every child of a rolling node rolls too, and no node is both pinned
-- and rolling.
pub record IsBuilt (g : Graph) : Type 0 where
  pub rolls_on :
      (i c : ℕ)
      → is_rolling (node_at g.nodes i) ≡ true
      → contains (g.children i) c ≡ true
      → is_rolling (node_at g.nodes c) ≡ true
  pub not_both : (i : ℕ) → is_rolling (node_at g.nodes i) ≡ true → is_pinned g i ≡ false

Below-rolling :
    (g : Graph) {i j : ℕ}
    → IsBuilt g
    → Below g i j
    → is_rolling (node_at g.nodes i) ≡ true
    → is_rolling (node_at g.nodes j) ≡ true
Below-rolling g b Below.itself h = h
Below-rolling g {i} b (Below.under c m below) h = Below-rolling g b below (b.rolls_on i c h m)

perform-pinned :
    (g : Graph) (rank : ℕ → ℕ) (u : Bool) (offset j : ℕ) (c : Choice) (s : Sched)
    → IsLayered g rank
    → IsBuilt g
    → IsSound g s
    → Allowed g (is_present s) (λ i. (s.states i).mutated) c
    → is_pinned g j ≡ true
    → is_present s j ≡ true
    → is_present (perform g u offset c s) j ≡ true
unfolding perform
perform-pinned g rank u offset j nothing s l b v a p h = unfold record_decision in ground arith
perform-pinned g rank u offset j (creates i) s l b v a p h =
    rw (decide_create-present g u offset i s) (ground arith)
perform-pinned g rank u offset j (mutates i) s l b v a p h =
    rw (decide_mutate-present g u offset i s) h
perform-pinned g rank u offset j (deletes i) s l b v a p h =
    elim (Bool-cases (is_rolling (node_at g.nodes i))) [
      | inl e ↦ rw e (
          roll-not_Below g rank u offset i s l a.0 v (ground (arith, a.1)) j
            (λ below. cc (b.not_both j (Below-rolling g b below e)))
          ∙ h)
      | inr e ↦
          rw (e, decide_delete-present g u offset [] i s)
            (elim (Bool-cases (i == j)) [
              | inl same ↦
                  let q : is_pinned g i ≡ true =
                    subst (λ k. is_pinned g k ≡ true) (sym ((==_iff i j).0 same)) p in
                  absurd (ground (arith, a.1))
              | inr other ↦ rw other h
            ])
    ]

-- A pinned node that is present is present after every decision: in an acyclic graph that keeps the
-- builders' guarantees, from a sound state, with a generator that draws indices in range.
pub step-pinned :
    (g : Graph) (rank : ℕ → ℕ) (src : Source) (k : Knobs src.Float) (offset j : ℕ) (s : Sched)
    (r : src.Rng)
    → IsLayered g rank
    → IsBuilt g
    → IsFair src
    → IsSound g s
    → is_pinned g j ≡ true
    → is_present s j ≡ true
    → is_present (step src g k offset (s, r)).0 j ≡ true
unfolding step sample_population
step-pinned g rank src k offset j s r l b fair v p h =
    perform-pinned g rank k.unbounded offset j _ s l b v
      (choose-Allowed src fair g (is_present s) (λ i. (s.states i).mutated) k s.present r) p h

-- What a choice of an eager create is.
abbrev pub IsEagerCreate : Graph → (ℕ → Bool) → Choice → Type 0
IsEagerCreate g here (creates i) = (can_create g here i ≡ true) × (is_eager g i ≡ true)
IsEagerCreate g here _ = ⊥
