-- ===== src/Churn/Step.antt =====
-- `step`, `roll` and the loop of `run` (internal/chaos/engine.go).
use dizzy.Prelude.{
  ℕ, zero, suc, ◌+◌, ◌-◌, Bool, if◌then◌else◌, ltb, ◌||◌, Option, List, [], ◌∷◌, ◌++◌, length,
}
use dizzy.Churn.Graph.{Graph, node_at, is_rolling}
use dizzy.Churn.Results.{advance}
use dizzy.Churn.State.{create, delete, mutate, NodeState, Sched, is_present}
use dizzy.Churn.Dispatch.{
  present_ops, dispatch_create, dispatch_delete, dispatch_mutate, record_decision, decision, idle,
  sample_population,
}
use dizzy.Churn.Choice.{Source, Knobs, Choice, creates, deletes, mutates, nothing, choose}

-- The last operations of the members of a set.
unfoldable pub set_ops : (ℕ → NodeState) → List ℕ → List (Option ℕ)
set_ops states [] = []
set_ops states (i ∷ is) = present_ops (states i).last ++ set_ops states is

-- The loop of `visit` over the children; `go` is `visit`.
abbrev pub visit_children : (ℕ → Sched → Sched) → List ℕ → Sched → Sched
visit_children go [] s = s
visit_children go (c ∷ cs) s = visit_children go cs (if is_present s c then go c s else s)

-- `visit`, on fuel: a visit goes down the children, so no more rounds than the graph is deep.
unfoldable pub visit : Graph → Bool → ℕ → List (Option ℕ) → ℕ → ℕ → Sched → Sched
visit g unbounded offset extra zero i s = s
visit g unbounded offset extra (suc fuel) i s =
    let below = visit_children (visit g unbounded offset extra fuel) (g.children i) s in
    dispatch_delete g i offset extra (record_decision unbounded (decision g offset delete i) below)

unfoldable pub roll : Graph → Bool → ℕ → ℕ → Sched → Sched
unfolding set_ops visit
roll g unbounded offset idx s =
    visit g unbounded offset (set_ops s.states (g.sets (node_at g.nodes idx).roll)) (length g.nodes)
      idx s

-- What `step` does with its choice, before it samples the population.
unfoldable pub perform : Graph → Bool → ℕ → Choice → Sched → Sched
unfolding roll
perform g unbounded offset nothing s = record_decision unbounded (idle offset) s
perform g unbounded offset (creates i) s =
    dispatch_create g i offset (record_decision unbounded (decision g offset create i) s)
perform g unbounded offset (mutates i) s =
    dispatch_mutate g i offset (record_decision unbounded (decision g offset mutate i) s)
perform g unbounded offset (deletes i) s =
    if is_rolling (node_at g.nodes i)
    then roll g unbounded offset i s
    else dispatch_delete g i offset [] (record_decision unbounded (decision g offset delete i) s)

module _ (src : Source) where
  open src use {Rng, Float, intn, int63n}

  unfoldable pub step : Graph → Knobs Float → ℕ → Sched × Rng → Sched × Rng
  unfolding perform
  step g k offset (s, r) =
      let (choice, r') = choose src g k (is_present s) (λ i. (s.states i).mutated) s.present r in
      (sample_population (perform g k.unbounded offset choice s), r')

  -- The fan-out of a tick.
  unfoldable pub steps : Graph → Knobs Float → ℕ → ℕ → Sched × Rng → Sched × Rng
  steps g k offset zero sr = sr
  steps g k offset (suc n) sr = steps g k offset n (step g k offset sr)

  -- Uniform in [min_interval, max_interval].
  unfoldable pub draw_delay : Knobs Float → Rng → ℕ × Rng
  draw_delay k r =
      let (d, r') = int63n r (k.max_interval - k.min_interval + 1) in (k.min_interval + d, r')

  -- One round of the loop of `run`: the sleep is the clock's, `offset` is what it reads afterwards.
  unfoldable pub tick : Graph → Knobs Float → ℕ → Sched × Rng → Sched × Rng
  unfolding draw_delay steps
  tick g k offset (s, r) =
      let (delay, r1) = draw_delay k r in
      let (f, r2) = intn r1 k.max_parallel in
      steps g k offset (suc f) (record s { res = advance s.res offset }, r2)

  -- The loop of `run`, over the clock's readings at the test and after the sleep of each round; a
  -- cancellation is the end of the readings.
  unfoldable pub run : Graph → Knobs Float → List (ℕ × ℕ) → Sched × Rng → Sched × Rng
  unfolding tick
  run g k [] sr = sr
  run g k ((now, offset) ∷ clock) sr =
      let rest = run g k clock (tick g k offset sr) in
      if k.unbounded || ltb now k.duration then rest else sr
