-- ===== src/Tests/Churn.antt =====
-- A churn graph of five nodes (internal/chaos/engine.go): a network and its subnet, a rolling worker
-- with its volume, and a pinned port; and a generator that counts.
use native.Mathlib.Nat.{mod-lt}
use dizzy.Prelude.{
  ℕ, zero, suc, ◌+◌, ◌-◌, ◌*◌, ◌/◌, ◌≤◌, ◌≡◌, refl, Bool, true, false, ◌==◌, ◌||◌, ltb, String,
  none, some, List, [], ◌∷◌, arith,
}
use Prim.Native.Nat.{◌%◌}
use dizzy.Churn.Graph.{Node, Graph, new_graph, node_at, is_rolling, new_graph-dual}
use dizzy.Churn.Results.{new_results}
use dizzy.Churn.State.{new_sched, Sched, no_resource, is_present}
use dizzy.Churn.Dispatch.{sample_population, dispatch_create, dispatch_delete, record_decision}
use dizzy.Churn.Choice.{
  Source, Knobs, choose, eager_create_candidates, create_candidates, delete_candidates, p_create,
}
use dizzy.Churn.Step.{run, roll, step}
use dizzy.Churn.Population.{IsSound}
use dizzy.Churn.Rolling.{IsLayered, Below, roll-Below, roll-not_Below}
use dizzy.Churn.Allowed.{IsFair}
use dizzy.Churn.Permitted.{Permitted, choose-Permitted}
use dizzy.Churn.Invariant.{run-IsSound, new_sched-IsSound}
use dizzy.Churn.Pinned.{IsBuilt, step-pinned}
use dizzy.Churn.Schedule.{schedule, view}
use dizzy.Churn.Task.{Cloud, complete}
use dizzy.Churn.Schedule.Quiet.{view-complete}
use dizzy.Churn.Schedule.Refinement.{seen-run_among, run_among, seen}

abbrev pub counting : Source
counting = record {
  Rng = ℕ;
  Float = ℕ;
  intn = λ r n. (r % n, suc r);
  int63n = λ r n. (r % n, suc r);
  float64 = λ r. (r * 37 % 100, suc r);
  float_lt = ltb;
  plus = λ a b. a + b;
  minus = λ a b. a - b;
  ratio = λ a b. 100 * a / b;
  nought = 0;
  one = 100;
}

pub counting-IsFair : IsFair counting
counting-IsFair r n h = mod-lt r h

abbrev node : String → List String → String → Bool → Bool → Node
node key parents roll pinned has_mutate = record {
  key = key;
  kind = "kind";
  parents = parents;
  gate = none;
  pinned = pinned;
  roll = roll;
  has_mutate = has_mutate;
}

abbrev pub nodes : List Node
nodes =
    node "net" [] "" false false
    ∷ node "subnet" ("net" ∷ []) "" false true
    ∷ node "worker" [] "set" false false
    ∷ node "volume" ("worker" ∷ []) "set" false true
    ∷ node "port" ("net" ∷ []) "" true true
    ∷ []

abbrev pub small : Graph
small = new_graph nodes 3 2

abbrev pub knobs : Knobs ℕ
knobs = record {
  duration = 100;
  min_interval = 1;
  max_interval = 3;
  max_parallel = 3;
  churn_ratio = 50;
  target_fill = 60;
  resize_ratio = 20;
  unbounded = false;
}

abbrev pub start : Sched
start = new_sched (new_results false 0 100)

abbrev pub clock : List (ℕ × ℕ)
clock = (0, 2) ∷ (2, 5) ∷ (5, 7) ∷ (7, 9) ∷ []

abbrev rank : ℕ → ℕ
rank zero = 1
rank (suc zero) = 0
rank (suc (suc zero)) = 1
rank _ = 0

small-IsLayered : IsLayered small rank
unfolding new_graph
small-IsLayered = record {
  dual = new_graph-dual nodes 3 2;
  lower = λ i c h. ground arith;
  in_range = λ i c h. ground arith;
  shallow = λ i. ground arith;
}

small_not_both : (i : ℕ) → is_rolling (node_at nodes i) ≡ true → (node_at nodes i).pinned ≡ false
small_not_both zero r = refl
small_not_both (suc zero) r = refl
small_not_both (suc (suc zero)) r = refl
small_not_both (suc (suc (suc zero))) r = refl
small_not_both (suc (suc (suc (suc zero)))) r = cc
small_not_both (suc (suc (suc (suc (suc i))))) r = refl

small-IsBuilt : IsBuilt small
unfolding new_graph
small-IsBuilt = record { rolls_on = λ i c r h. ground arith; not_both = λ i r. small_not_both i r }

pub start-IsSound : IsSound small start
start-IsSound = new_sched-IsSound small (new_results false 0 100)

finish : Sched
finish = (run counting small knobs clock (start, 0)).0

-- The run reaches a population of its own.
finish_population : finish.present ≡ 5
unfolding finish run step new_graph choose eager_create_candidates create_candidates
    sample_population new_sched dispatch_create record_decision delete_candidates p_create
    dispatch_delete
finish_population = refl

run-IsSound_example : IsSound small finish × (finish.present ≤ 5)
unfolding finish new_graph
run-IsSound_example =
    run-IsSound small rank small-IsLayered counting counting-IsFair knobs clock
      (new_results false 0 100) 0

choose-Permitted_example :
    Permitted small
      (is_present finish)
      (λ _. false)
      (choose counting small knobs (is_present finish) (λ _. false) 5 7).0
choose-Permitted_example =
    choose-Permitted counting counting-IsFair small (is_present finish) (λ _. false) knobs 5 7

seen-run_among_example :
    seen counting small knobs
      (λ _ s. s)
      (run_among counting small knobs (λ _ s. s) clock (start, 0))
    ≡ schedule counting small knobs clock (seen counting small knobs (λ _ s. s) (start, 0))
seen-run_among_example = seen-run_among counting small knobs (λ _ s. s) (λ n t. refl) clock start 0

-- The state in which the network, the worker and its volume are present, and the port.
stocked : Sched
stocked = record start {
  states = λ i. record (start.states i) { present = (i == 0) || (i == 2) || (i == 3) || (i == 4) };
  present = 4;
  creates = 4;
}

stocked-IsSound : IsSound small stocked
unfolding stocked new_graph new_sched
stocked-IsSound = record { counted = refl; closed = λ i j m h. ground arith; ledger = refl }

volume-Below : Below small 2 3
unfolding new_graph
volume-Below = Below.under 3 refl Below.itself

roll-Below_example : is_present (roll small false 9 2 stocked) 3 ≡ false
unfolding stocked new_graph
roll-Below_example =
    roll-Below small rank false 9 2 stocked small-IsLayered (omega arith) stocked-IsSound refl 3
      volume-Below

Below-set : {i j : ℕ} → Below small i j → 2 ≤ i → i ≤ 3 → 2 ≤ j
unfolding new_graph
Below-set Below.itself h k = h
Below-set {i} (Below.under c m b) h k = Below-set b (ground arith) (ground arith)

roll-not_Below_example : is_present (roll small false 9 2 stocked) 0 ≡ is_present stocked 0
unfolding stocked new_graph
roll-not_Below_example =
    roll-not_Below small rank false 9 2 stocked small-IsLayered (omega arith) stocked-IsSound refl 0
      (λ b. absurd (omega (arith, Below-set b (omega arith) (omega arith))))

step-pinned_example : is_present (step counting small knobs 9 (stocked, 3)).0 4 ≡ true
unfolding stocked new_graph
step-pinned_example =
    step-pinned small rank counting knobs 9 4 stocked 3 small-IsLayered small-IsBuilt
      counting-IsFair stocked-IsSound refl refl

-- Creates succeed and deletes fail.
abbrev pub faulty : Cloud
faulty = record {
  create = λ n ids. (record no_resource { id = "id" }, none);
  delete = λ n. some "http_503";
  mutate = λ n. none;
  latency = λ n. 1;
}

view-complete_example : view (complete small faulty true 0 finish) ≡ view finish
view-complete_example = view-complete small faulty true 0 finish
