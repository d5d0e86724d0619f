-- ===== src/Churn/Schedule/Refinement.antt =====
-- The engine's scheduler (internal/chaos/engine.go) implements the schedule, whatever its operations do
-- in between.
use dizzy.Prelude.{
  ℕ, zero, suc, ◌≡◌, refl, ap, fun_ext, ◌∙◌, Bool, true, false, if◌then◌else◌, ltb, ◌||◌, if_map,
  Option, List, [], ◌∷◌, length, arith, Bool-cases, inl, inr,
}
use dizzy.Churn.Graph.{Graph, node_at, is_rolling}
use dizzy.Churn.Results.{advance}
use dizzy.Churn.State.{Sched, is_present}
use dizzy.Churn.Dispatch.{
  dispatch_create, dispatch_delete, dispatch_mutate, record_decision, idle, sample_population,
}
use dizzy.Churn.Choice.{Source, Knobs, Choice, creates, deletes, mutates, nothing, choose}
use dizzy.Churn.Step.{visit_children, visit, roll, perform, step, draw_delay}
use dizzy.Churn.Population.{decide_create, decide_delete, decide_mutate}
use dizzy.Churn.Schedule.{
  View, view, log, enter, leave, alter, leave_children, leave_tree, decide, sample, schedule_step,
  schedule_steps, schedule_tick, schedule,
}

view_eq :
    (v w : View)
    → v.here ≡ w.here
    → v.mutated ≡ w.mutated
    → v.present ≡ w.present
    → v.decisions ≡ w.decisions
    → v.creates ≡ w.creates
    → v.deletes ≡ w.deletes
    → v.mutates ≡ w.mutates
    → v.pop_min ≡ w.pop_min
    → v.pop_max ≡ w.pop_max
    → v.pop_sum ≡ w.pop_sum
    → v.pop_samples ≡ w.pop_samples
    → v ≡ w
view_eq v w a b c d e f h k l m n = λ i. record {
  here = a i;
  mutated = b i;
  present = c i;
  decisions = d i;
  creates = e i;
  deletes = f i;
  mutates = h i;
  pop_min = k i;
  pop_max = l i;
  pop_sum = m i;
  pop_samples = n i;
}

view-idle :
    (u : Bool) (offset : ℕ) (s : Sched)
    → view (record_decision u (idle offset) s) ≡ log u (idle offset) (view s)
unfolding record_decision
view-idle true offset s = refl
view-idle false offset s = refl

view-decide_create :
    (g : Graph) (u : Bool) (offset i : ℕ) (s : Sched)
    → view (decide_create g u offset i s) ≡ enter g u offset i (view s)
unfolding dispatch_create record_decision enter
view-decide_create g true offset i s =
    view_eq _ _ (fun_ext λ j. ground arith) (fun_ext λ j. ground arith) refl refl refl refl refl
      refl refl refl refl
view-decide_create g false offset i s =
    view_eq _ _ (fun_ext λ j. ground arith) (fun_ext λ j. ground arith) refl refl refl refl refl
      refl refl refl refl

view-decide_delete :
    (g : Graph) (u : Bool) (offset : ℕ) (extra : List (Option ℕ)) (i : ℕ) (s : Sched)
    → view (decide_delete g u offset extra i s) ≡ leave g u offset i (view s)
unfolding dispatch_delete record_decision leave
view-decide_delete g true offset extra i s =
    view_eq _ _ (fun_ext λ j. ground arith) (fun_ext λ j. ground arith) refl refl refl refl refl
      refl refl refl refl
view-decide_delete g false offset extra i s =
    view_eq _ _ (fun_ext λ j. ground arith) (fun_ext λ j. ground arith) refl refl refl refl refl
      refl refl refl refl

view-decide_mutate :
    (g : Graph) (u : Bool) (offset i : ℕ) (s : Sched)
    → view (decide_mutate g u offset i s) ≡ alter g u offset i (view s)
unfolding dispatch_mutate record_decision alter
view-decide_mutate g true offset i s =
    view_eq _ _ (fun_ext λ j. ground arith) (fun_ext λ j. ground arith) refl refl refl refl refl
      refl refl refl refl
view-decide_mutate g false offset i s =
    view_eq _ _ (fun_ext λ j. ground arith) (fun_ext λ j. ground arith) refl refl refl refl refl
      refl refl refl refl

view-visit_children :
    (go : ℕ → Sched → Sched) (go' : ℕ → View → View) (cs : List ℕ) (s : Sched)
    → ((c : ℕ) (t : Sched) → view (go c t) ≡ go' c (view t))
    → view (visit_children go cs s) ≡ leave_children go' cs (view s)
view-visit_children go go' [] s h = refl
view-visit_children go go' (c ∷ cs) s h =
    view-visit_children go go' cs _ h
    ∙ ap (leave_children go' cs)
        (elim (Bool-cases (is_present s c)) [ inl e ↦ rw e (h c s) | inr e ↦ rw e refl ])

view-visit :
    (g : Graph) (u : Bool) (offset : ℕ) (extra : List (Option ℕ)) (fuel i : ℕ) (s : Sched)
    → view (visit g u offset extra fuel i s) ≡ leave_tree g u offset fuel i (view s)
unfolding visit leave_tree
view-visit g u offset extra zero i s = refl
view-visit g u offset extra (suc fuel) i s =
    view-decide_delete g u offset extra i _
    ∙ ap (leave g u offset i)
        (view-visit_children _ _ (g.children i) s (λ c t. view-visit g u offset extra fuel c t))

view-perform :
    (g : Graph) (u : Bool) (offset : ℕ) (c : Choice) (s : Sched)
    → view (perform g u offset c s) ≡ decide g u offset c (view s)
unfolding perform roll decide
view-perform g u offset nothing s = view-idle u offset s
view-perform g u offset (creates i) s = view-decide_create g u offset i s
view-perform g u offset (mutates i) s = view-decide_mutate g u offset i s
view-perform g u offset (deletes i) s = elim (Bool-cases (is_rolling (node_at g.nodes i))) [
  | inl e ↦ rw e (view-visit g u offset _ (length g.nodes) i s)
  | inr e ↦ rw e (view-decide_delete g u offset [] i s)
]

view-sample : (s : Sched) → view (sample_population s) ≡ sample (view s)
unfolding sample_population sample
view-sample s = refl

-- `run` of the engine, with `env` for what its concurrent operations do to the state before each
-- decision.
module _ (src : Source) (g : Graph) (k : Knobs src.Float) (env : ℕ → Sched → Sched) where
  pub steps_among : ℕ → ℕ → Sched × src.Rng → Sched × src.Rng
  steps_among offset zero sr = sr
  steps_among offset (suc n) (s, r) = steps_among offset n (step src g k offset (env offset s, r))

  pub tick_among : ℕ → Sched × src.Rng → Sched × src.Rng
  tick_among offset (s, r) =
      let (delay, r1) = draw_delay src k r in
      let (f, r2) = src.intn r1 k.max_parallel in
      steps_among offset (suc f) (record s { res = advance s.res offset }, r2)

  pub run_among : List (ℕ × ℕ) → Sched × src.Rng → Sched × src.Rng
  run_among [] sr = sr
  run_among ((now, offset) ∷ clock) sr =
      let rest = run_among clock (tick_among offset sr) in
      if k.unbounded || ltb now k.duration then rest else sr

  abbrev pub seen : Sched × src.Rng → View × src.Rng
  seen (s, r) = (view s, r)

  seen-step :
      (offset : ℕ) (s : Sched) (r : src.Rng)
      → seen (step src g k offset (s, r)) ≡ schedule_step src g k offset (seen (s, r))
  unfolding step schedule_step
  seen-step offset s r =
      let r' = (choose src g k (is_present s) (λ i. (s.states i).mutated) s.present r).1 in
      ap (λ v. (v, r')) (view-sample _ ∙ ap sample (view-perform g k.unbounded offset _ s))

  module _ (quiet : (n : ℕ) (t : Sched) → view (env n t) ≡ view t) where
    seen-steps_among :
        (offset n : ℕ) (s : Sched) (r : src.Rng)
        → seen (steps_among offset n (s, r)) ≡ schedule_steps src g k offset n (seen (s, r))
    unfolding steps_among schedule_steps
    seen-steps_among offset zero s r = refl
    seen-steps_among offset (suc n) s r =
        let (s', r') = step src g k offset (env offset s, r) in
        seen-steps_among offset n s' r'
        ∙ ap (schedule_steps src g k offset n) (
            seen-step offset (env offset s) r
            ∙ ap (λ v. schedule_step src g k offset (v, r)) (quiet offset s))

    seen-tick_among :
        (offset : ℕ) (s : Sched) (r : src.Rng)
        → seen (tick_among offset (s, r)) ≡ schedule_tick src g k offset (seen (s, r))
    unfolding tick_among schedule_tick
    seen-tick_among offset s r =
        seen-steps_among offset _ (record s { res = advance s.res offset }) _

    -- A run makes the decisions of its schedule, whatever its concurrent operations do to the state
    -- between two decisions, as long as they leave the inventory, the counters and the log alone:
    -- the decisions depend on the graph, the config, the clock and the generator only.
    pub seen-run_among :
        (clock : List (ℕ × ℕ)) (s : Sched) (r : src.Rng)
        → seen (run_among clock (s, r)) ≡ schedule src g k clock (seen (s, r))
    unfolding run_among schedule
    seen-run_among [] s r = refl
    seen-run_among ((now, offset) ∷ clock) s r =
        if_map seen (k.unbounded || ltb now k.duration)
          (seen-run_among clock (tick_among offset (s, r)).0 (tick_among offset (s, r)).1
            ∙ ap (schedule src g k clock) (seen-tick_among offset s r))
          refl
