-- ===== src/Nova/Graph/Kept.antt =====
-- What a churn run keeps of the rolling and of the long-lived graph of a Nova plan
-- (internal/chaos/novagraph/graph.go with internal/chaos/engine.go).
use dizzy.Prelude.{
  ℕ, suc, ◌-◌, ◌<◌, ◌≡◌, ◌≢◌, refl, inl, inr, true, false, has_iff, List, [], length, All, All-at,
  All-get_or, All-weaken, Fresh, arith,
}
use dizzy.Nova.Plan.{Plan}
use dizzy.Nova.Graph.{Resolved, built, is_root_kind, build_rolling, build_long_lived}
use dizzy.Nova.Graph.LongLived.{Stays, build_long_lived-Lives}
use dizzy.Nova.Graph.Rolled.{Settled, build_rolling-Rolls}
use dizzy.Churn.Graph.{Node, no_node, node_at, is_rolling, new_graph}
use dizzy.Churn.State.{Sched, is_present}
use dizzy.Churn.Choice.{Source, Knobs}
use dizzy.Churn.Step.{run}
use dizzy.Churn.Population.{IsSound}
use dizzy.Churn.Allowed.{IsFair}
use dizzy.Churn.Layered.{keys, new_graph-IsLayered}
use dizzy.Churn.Parented.{child-parents}
use dizzy.Churn.Pinned.{IsBuilt}
use dizzy.Churn.Lasting.{run-Holds}

Settled-IsBuilt :
    (nodes : List Node) (max_parallel concurrency : ℕ)
    → All Settled nodes
    → IsBuilt (new_graph nodes max_parallel concurrency)
unfolding new_graph
Settled-IsBuilt nodes m c settled = record {
  rolls_on = λ i j h child.
      All-at (λ nd. nd.parents ≢ [] → is_rolling nd ≡ true) nodes j no_node
        (All-weaken Settled (λ nd. nd.parents ≢ [] → is_rolling nd ≡ true)
          (λ nd s some_parent. elim s [
            | inl (a, b, d, e) ↦ absurd (some_parent e)
            | inr (a, b, d) ↦ (has_iff nd.roll).1 d
          ])
          nodes settled)
        (λ some_parent. absurd (some_parent refl)) (child-parents nodes m c i j child);
  not_both = λ i.
      All-at (λ nd. is_rolling nd ≡ true → nd.pinned ≡ false) nodes i no_node
        (All-weaken Settled (λ nd. is_rolling nd ≡ true → nd.pinned ≡ false)
          (λ nd s rolls. elim s [
            | inl (a, b, d, e) ↦ absurd ((has_iff nd.roll).0 rolls d)
            | inr (a, b, d) ↦ b
          ])
          nodes settled)
        (λ h. cc);
}

-- In a churn run over the rolling graph of a Nova plan, where no two nodes share a key and there is
-- one at all, from a sound state and with a generator that draws indices in range, every server
-- group and every network that is present at the start is present at the end, and so is every
-- parent of a present node.
pub build_rolling-lasting :
    (p : Plan) (r : Resolved) (nodes : List Node) (max_parallel concurrency : ℕ) (src : Source)
    → build_rolling p r ≡ built nodes
    → Fresh [] (keys nodes)
    → IsFair src
    → (k : Knobs src.Float) (clock : List (ℕ × ℕ)) (s : Sched) (x : src.Rng) (j : ℕ)
    → let g = new_graph nodes max_parallel concurrency in
      IsSound g s
      → j < length nodes
      → is_root_kind (node_at nodes j).kind ≡ true
      → is_present s j ≡ true
      → let t = (run src g k clock (s, x)).0 in IsSound g t × (is_present t j ≡ true)
unfolding new_graph
build_rolling-lasting p r nodes m c src e f fair k clock s x j v lt root h =
    let made = build_rolling-Rolls p r nodes e in
    run-Holds (new_graph nodes m c) (λ i. length nodes - suc i) src
      (new_graph-IsLayered nodes m c (omega (arith, lt)) f made.ordered)
      (Settled-IsBuilt nodes m c made.settled) fair j
      (elim (All-get_or Settled nodes j no_node made.settled lt) [
        | inl (a, b, d, o) ↦ b
        | inr (a, b, d) ↦ cc (a, root)
      ])
      k clock s x (v, h)

Stays-IsBuilt :
    (nodes : List Node) (max_parallel concurrency : ℕ)
    → All Stays nodes
    → IsBuilt (new_graph nodes max_parallel concurrency)
unfolding new_graph
Stays-IsBuilt nodes m c stays =
    let still : (i : ℕ) → is_rolling (node_at nodes i) ≡ true → ⊥ = λ i.
      All-at (λ nd. is_rolling nd ≡ true → ⊥) nodes i no_node
        (All-weaken Stays (λ nd. is_rolling nd ≡ true → ⊥)
          (λ nd s rolls. (has_iff nd.roll).0 rolls s.1) nodes stays)
        (λ h. cc) in
    record { rolls_on = λ i j h child. absurd (still i h); not_both = λ i h. absurd (still i h) }

-- In a churn run over the long-lived graph of a Nova plan, where no two nodes share a key, from a
-- sound state and with a generator that draws indices in range, every node that is present at the
-- start is present at the end.
pub build_long_lived-lasting :
    (p : Plan) (r : Resolved) (nodes : List Node) (max_parallel concurrency : ℕ) (src : Source)
    → build_long_lived p r ≡ built nodes
    → Fresh [] (keys nodes)
    → IsFair src
    → (k : Knobs src.Float) (clock : List (ℕ × ℕ)) (s : Sched) (x : src.Rng) (j : ℕ)
    → let g = new_graph nodes max_parallel concurrency in
      IsSound g s
      → j < length nodes
      → is_present s j ≡ true
      → is_present (run src g k clock (s, x)).0 j ≡ true
unfolding new_graph
build_long_lived-lasting p r nodes m c src e f fair k clock s x j v lt h =
    let made = build_long_lived-Lives p r nodes e in
    (run-Holds (new_graph nodes m c) (λ i. length nodes - suc i) src
      (new_graph-IsLayered nodes m c (omega (arith, lt)) f made.ordered)
      (Stays-IsBuilt nodes m c made.stays) fair j (All-get_or Stays nodes j no_node made.stays lt).0
      k clock s x (v, h)).1
