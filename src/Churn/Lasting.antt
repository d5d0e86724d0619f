-- ===== src/Churn/Lasting.antt =====
-- Pinned nodes over a whole run (internal/chaos/engine.go).
use dizzy.Prelude.{ℕ, zero, suc, ◌≡◌, true, ltb, ◌||◌, List, [], ◌∷◌, if_both}
use dizzy.Churn.Graph.{Graph}
use dizzy.Churn.Results.{advance}
use dizzy.Churn.State.{Sched, is_present}
use dizzy.Churn.Choice.{Source, Knobs}
use dizzy.Churn.Step.{step, steps, tick, run, draw_delay}
use dizzy.Churn.Population.{IsSound}
use dizzy.Churn.Rolling.{IsLayered}
use dizzy.Churn.Allowed.{IsFair}
use dizzy.Churn.Invariant.{step-IsSound}
use dizzy.Churn.Pinned.{IsBuilt, is_pinned, step-pinned}

module _ (g : Graph) (rank : ℕ → ℕ) (src : Source) (layered : IsLayered g rank) (built : IsBuilt g)
    (fair : IsFair src) (j : ℕ) (pinned : is_pinned g j ≡ true) where
  abbrev Holds : Sched → Type 0
  Holds s = IsSound g s × (is_present s j ≡ true)

  steps-Holds :
      (k : Knobs src.Float) (offset n : ℕ) (s : Sched) (r : src.Rng)
      → Holds s
      → Holds (steps src g k offset n (s, r)).0
  unfolding steps
  steps-Holds k offset zero s r h = h
  steps-Holds k offset (suc n) s r h =
      let (s', r') = step src g k offset (s, r) in
      steps-Holds k offset n s' r' (
        step-IsSound g rank layered src fair k offset s r h.0,
        step-pinned g rank src k offset j s r layered built fair h.0 pinned h.1,
      )

  tick-Holds :
      (k : Knobs src.Float) (offset : ℕ) (s : Sched) (r : src.Rng)
      → Holds s
      → Holds (tick src g k offset (s, r)).0
  unfolding tick
  tick-Holds k offset s r h =
      let (delay, r1) = draw_delay src k r in
      let (f, r2) = src.intn r1 k.max_parallel in
      steps-Holds k offset (suc f) (record s { res = advance s.res offset }) r2
        (record { counted = h.0.counted; closed = h.0.closed; ledger = h.0.ledger }, h.1)

  -- A pinned node that is present stays so through a whole run.
  pub run-Holds :
      (k : Knobs src.Float) (clock : List (ℕ × ℕ)) (s : Sched) (r : src.Rng)
      → Holds s
      → Holds (run src g k clock (s, r)).0
  unfolding run
  run-Holds k [] s r h = h
  run-Holds k ((now, offset) ∷ clock) s r h =
      if_both (λ (sr : Sched × src.Rng). Holds sr.0) (k.unbounded || ltb now k.duration)
        (run-Holds k clock (tick src g k offset (s, r)).0 (tick src g k offset (s, r)).1
          (tick-Holds k offset s r h))
        h
