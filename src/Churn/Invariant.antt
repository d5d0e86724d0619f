-- ===== src/Churn/Invariant.antt =====
-- What holds of the scheduler's state after every decision (internal/chaos/engine.go), whatever the
-- generator draws.
use dizzy.Prelude.{
  ℕ, zero, suc, ◌≤◌, ◌≡◌, refl, Bool, false, ◌||◌, ltb, List, [], ◌∷◌, length, count_below,
  count_below-le, arith, Bool-cases, inl, inr, if_both,
}
use dizzy.Churn.Graph.{Graph, node_at, is_rolling}
use dizzy.Churn.Results.{Results, advance}
use dizzy.Churn.State.{Sched, is_present, new_sched}
use dizzy.Churn.Choice.{Source, Knobs, Choice, creates, deletes, mutates, nothing}
use dizzy.Churn.Step.{perform, step, steps, tick, run, draw_delay}
use dizzy.Churn.Population.{
  IsSound, decide_create-IsSound, decide_delete-IsSound, decide_mutate-IsSound, idle-IsSound,
  sample-IsSound,
}
use dizzy.Churn.Rolling.{IsLayered, roll-IsSound}
use dizzy.Churn.Allowed.{Allowed, IsFair, choose-Allowed}

-- The engine starts empty, and sound.
pub new_sched-IsSound : (g : Graph) (res : Results) → IsSound g (new_sched res)
unfolding new_sched
new_sched-IsSound g res = record {
  counted = none_below (length g.nodes);
  closed = λ i j m h. cc;
  ledger = refl;
}
  where
    none_below : (n : ℕ) → 0 ≡ count_below (λ _. false) n
    none_below zero = refl
    none_below (suc n) = none_below n

module _ (g : Graph) (rank : ℕ → ℕ) (layered : IsLayered g rank) where
  perform-IsSound :
      (u : Bool) (offset : ℕ) (c : Choice) (s : Sched)
      → Allowed g (is_present s) (λ i. (s.states i).mutated) c
      → IsSound g s
      → IsSound g (perform g u offset c s)
  unfolding perform
  perform-IsSound u offset nothing s a v = idle-IsSound g u offset s v
  perform-IsSound u offset (creates i) s a v =
      decide_create-IsSound g u offset i s a.0 (ground (arith, a.1)) (ground (arith, a.1)) v
  perform-IsSound u offset (mutates i) s a v = decide_mutate-IsSound g u offset i s v
  perform-IsSound u offset (deletes i) s a v = elim (Bool-cases (is_rolling (node_at g.nodes i))) [
    | inl e ↦ rw e (roll-IsSound g rank u offset i s layered a.0 v (ground (arith, a.1)))
    | inr e ↦ rw e (
        decide_delete-IsSound g u offset [] i s layered.dual a.0 (ground (arith, a.1))
          (ground (arith, a.1)) v)
  ]

  module _ (src : Source) (fair : IsFair src) where
    -- One decision keeps the state sound: the population counter counts the present nodes, every
    -- parent of a present node is present, and the population is the creates less the deletes. The
    -- graph is acyclic and the generator draws indices in range.
    pub step-IsSound :
        (k : Knobs src.Float) (offset : ℕ) (s : Sched) (r : src.Rng)
        → IsSound g s
        → IsSound g (step src g k offset (s, r)).0
    unfolding step
    step-IsSound k offset s r v = sample-IsSound g _ (
        perform-IsSound k.unbounded offset _ s
          (choose-Allowed src fair g (is_present s) (λ i. (s.states i).mutated) k s.present r) v)

    steps-IsSound :
        (k : Knobs src.Float) (offset n : ℕ) (s : Sched) (r : src.Rng)
        → IsSound g s
        → IsSound g (steps src g k offset n (s, r)).0
    unfolding steps
    steps-IsSound k offset zero s r v = v
    steps-IsSound k offset (suc n) s r v =
        let (s', r') = step src g k offset (s, r) in
        steps-IsSound k offset n s' r' (step-IsSound k offset s r v)

    tick-IsSound :
        (k : Knobs src.Float) (offset : ℕ) (s : Sched) (r : src.Rng)
        → IsSound g s
        → IsSound g (tick src g k offset (s, r)).0
    unfolding tick
    tick-IsSound k offset s r v =
        let (delay, r1) = draw_delay src k r in
        let (f, r2) = src.intn r1 k.max_parallel in
        steps-IsSound k offset (suc f) (record s { res = advance s.res offset }) r2
          (record { counted = v.counted; closed = v.closed; ledger = v.ledger })

    run_from-IsSound :
        (k : Knobs src.Float) (clock : List (ℕ × ℕ)) (s : Sched) (r : src.Rng)
        → IsSound g s
        → IsSound g (run src g k clock (s, r)).0
    unfolding run
    run_from-IsSound k [] s r v = v
    run_from-IsSound k ((now, offset) ∷ clock) s r v =
        if_both (λ (sr : Sched × src.Rng). IsSound g sr.0) (k.unbounded || ltb now k.duration)
          (run_from-IsSound k clock (tick src g k offset (s, r)).0 (tick src g k offset (s, r)).1
            (tick-IsSound k offset s r v))
          v

    -- After a whole run from the empty inventory, on any clock, every parent of a present node is
    -- present, the population is the creates less the deletes, and it never exceeds the planned
    -- resource set.
    pub run-IsSound :
        (k : Knobs src.Float) (clock : List (ℕ × ℕ)) (res : Results) (r : src.Rng)
        → let s = (run src g k clock (new_sched res, r)).0 in
          IsSound g s × (s.present ≤ length g.nodes)
    run-IsSound k clock res r =
        let v = run_from-IsSound k clock (new_sched res) r (new_sched-IsSound g res) in
        (v, omega (arith, v.counted, count_below-le _ (length g.nodes)))
