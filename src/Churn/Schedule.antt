-- ===== src/Churn/Schedule.antt =====
-- The schedule of decisions as a machine of its own: the inventory flags, the counters and the log,
-- with no operation in sight. It is what the comment on `chaos` promises to be deterministic for a
-- seed and a config.
pub mod Refinement
pub mod Quiet
use dizzy.Prelude.{
  ℕ, zero, suc, ◌+◌, ◌-◌, Bool, true, false, if◌then◌else◌, ltb, ◌||◌, ◌==◌, List, [], ◌∷◌, ◌++◌,
  length, update,
}
use dizzy.Churn.Graph.{Graph, node_at, is_rolling}
use dizzy.Churn.State.{Action, create, delete, mutate, noop, Decision, Sched, is_present}
use dizzy.Churn.Dispatch.{decision, idle}
use dizzy.Churn.Step.{draw_delay}
use dizzy.Churn.Choice.{Source, Knobs, Choice, creates, deletes, mutates, nothing, choose}

pub record View : Type 0 where
  pub here : ℕ → Bool
  pub mutated : ℕ → Bool
  pub present : ℕ
  pub decisions : List Decision
  pub creates : ℕ
  pub deletes : ℕ
  pub mutates : ℕ
  pub pop_min : ℕ
  pub pop_max : ℕ
  pub pop_sum : ℕ
  pub pop_samples : ℕ

abbrev pub view : Sched → View
view s = record {
  here = is_present s;
  mutated = λ i. (s.states i).mutated;
  present = s.present;
  decisions = s.decisions;
  creates = s.creates;
  deletes = s.deletes;
  mutates = s.mutates;
  pop_min = s.pop_min;
  pop_max = s.pop_max;
  pop_sum = s.pop_sum;
  pop_samples = s.pop_samples;
}

abbrev count : Action → View → View
count create v = record v { creates = suc v.creates }
count delete v = record v { deletes = suc v.deletes }
count mutate v = record v { mutates = suc v.mutates }
count noop v = v

abbrev log : Bool → Decision → View → View
log u d v =
    let w = count d.action v in if u then w else record w { decisions = w.decisions ++ d ∷ [] }

pub enter : Graph → Bool → ℕ → ℕ → View → View
enter g u offset i v =
    let w = log u (decision g offset create i) v in
    record w {
      here = update w.here i true;
      mutated = update w.mutated i false;
      present = suc w.present;
    }

pub leave : Graph → Bool → ℕ → ℕ → View → View
leave g u offset i v =
    let w = log u (decision g offset delete i) v in
    record w { here = update w.here i false; present = w.present - 1 }

pub alter : Graph → Bool → ℕ → ℕ → View → View
alter g u offset i v =
    let w = log u (decision g offset mutate i) v in record w { mutated = update w.mutated i true }

abbrev leave_children : (ℕ → View → View) → List ℕ → View → View
leave_children go [] v = v
leave_children go (c ∷ cs) v = leave_children go cs (if v.here c then go c v else v)

pub leave_tree : Graph → Bool → ℕ → ℕ → ℕ → View → View
leave_tree g u offset zero i v = v
leave_tree g u offset (suc fuel) i v =
    leave g u offset i (leave_children (leave_tree g u offset fuel) (g.children i) v)

pub decide : Graph → Bool → ℕ → Choice → View → View
decide g u offset nothing v = log u (idle offset) v
decide g u offset (creates i) v = enter g u offset i v
decide g u offset (mutates i) v = alter g u offset i v
decide g u offset (deletes i) v =
    if is_rolling (node_at g.nodes i)
    then leave_tree g u offset (length g.nodes) i v
    else leave g u offset i v

pub sample : View → View
sample v = record v {
  pop_min =
      if (v.pop_samples == 0)
      then v.present
      else (if ltb v.present v.pop_min then v.present else v.pop_min);
  pop_max =
      if (v.pop_samples == 0)
      then v.present
      else (if ltb v.pop_max v.present then v.present else v.pop_max);
  pop_sum = v.pop_sum + v.present;
  pop_samples = suc v.pop_samples;
}

module _ (src : Source) where
  pub schedule_step : Graph → Knobs src.Float → ℕ → View × src.Rng → View × src.Rng
  schedule_step g k offset (v, r) =
      let (c, r') = choose src g k v.here v.mutated v.present r in
      (sample (decide g k.unbounded offset c v), r')

  pub schedule_steps : Graph → Knobs src.Float → ℕ → ℕ → View × src.Rng → View × src.Rng
  schedule_steps g k offset zero vr = vr
  schedule_steps g k offset (suc n) vr = schedule_steps g k offset n (schedule_step g k offset vr)

  pub schedule_tick : Graph → Knobs src.Float → ℕ → View × src.Rng → View × src.Rng
  schedule_tick g k offset (v, r) =
      let (delay, r1) = draw_delay src k r in
      let (f, r2) = src.intn r1 k.max_parallel in schedule_steps g k offset (suc f) (v, r2)

  -- The schedule of a run on a clock.
  pub schedule : Graph → Knobs src.Float → List (ℕ × ℕ) → View × src.Rng → View × src.Rng
  schedule g k [] vr = vr
  schedule g k ((now, offset) ∷ clock) vr =
      let rest = schedule g k clock (schedule_tick g k offset vr) in
      if k.unbounded || ltb now k.duration then rest else vr
