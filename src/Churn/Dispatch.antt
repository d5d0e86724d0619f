-- ===== src/Churn/Dispatch.antt =====
-- Dispatching one decision (internal/chaos/engine.go): the change of the logical inventory, the new
-- operation and what it waits for. `launch` blocks on the pending pool and starts the task: of that
-- the state shows the operation and its count in the results.
use dizzy.Prelude.{
  ℕ, suc, ◌+◌, ◌-◌, Bool, true, false, if◌then◌else◌, ltb, ◌==◌, Option, none, some, List, [], ◌∷◌,
  ◌++◌, update,
}
use dizzy.Churn.Graph.{Graph, node_at}
use dizzy.Churn.Results.{begin}
use dizzy.Churn.State.{
  Action, create, delete, mutate, noop, Decision, create_work, delete_work, mutate_work, Op, new_op,
  NodeState, Sched, retire, retry_deletes,
}

-- The parents' current create operations, in the order of the parents.
unfoldable pub parent_ops : (ℕ → NodeState) → List ℕ → List (Option ℕ)
parent_ops states [] = []
parent_ops states (p ∷ ps) = (states p).create ∷ parent_ops states ps

abbrev pub present_ops : Option ℕ → List (Option ℕ)
present_ops none = []
present_ops (some l) = some l ∷ []

-- The last operations of the absent children that had any.
unfoldable pub child_ops : (ℕ → NodeState) → List ℕ → List (Option ℕ)
child_ops states [] = []
child_ops states (c ∷ cs) =
    let rest = child_ops states cs in
    if (states c).present then rest else present_ops (states c).last ++ rest

unfoldable pub launch : ℕ → Op → Sched → Sched
launch n o s = record s { ops = update s.ops n o; res = begin s.res o.offset }

unfoldable pub dispatch_create : Graph → ℕ → ℕ → Sched → Sched
unfolding parent_ops launch
dispatch_create g idx offset s =
    let st = s.states idx in
    let parents = parent_ops s.states (g.parents idx) in
    let out = retry_deletes s.ops (suc s.next_op) offset st.retired in
    launch s.next_op
      (new_op false (present_ops st.last ++ parents) (create_work idx parents out.retries) offset)
      (record s {
        states = update s.states idx (record {
          present = true;
          mutated = false;
          create = some s.next_op;
          last = some s.next_op;
          retired = out.retired;
        });
        ops = out.ops;
        next_op = out.next_op;
        present = suc s.present;
      })

unfoldable pub dispatch_delete : Graph → ℕ → ℕ → List (Option ℕ) → Sched → Sched
unfolding parent_ops child_ops launch
dispatch_delete g idx offset extra s =
    let st = s.states idx in
    let parents = parent_ops s.states (g.parents idx) in
    let deps = st.last ∷ (parents ++ (child_ops s.states (g.children idx) ++ extra)) in
    launch s.next_op (new_op true deps (delete_work idx parents st.create) offset) (record s {
      states = update s.states idx (record st {
        present = false;
        last = some s.next_op;
        retired = retire s.ops st.retired st.create s.next_op;
      });
      next_op = suc s.next_op;
      present = s.present - 1;
    })

unfoldable pub dispatch_mutate : Graph → ℕ → ℕ → Sched → Sched
unfolding parent_ops launch
dispatch_mutate g idx offset s =
    let st = s.states idx in
    let parents = parent_ops s.states (g.parents idx) in
    launch s.next_op (new_op false (st.last ∷ parents) (mutate_work idx parents st.create) offset)
      (record s {
        states = update s.states idx (record st { mutated = true; last = some s.next_op });
        next_op = suc s.next_op;
      })

-- `record`: counts the decision, and logs it in a bounded run.
abbrev pub count_action : Action → Sched → Sched
count_action create s = record s { creates = suc s.creates }
count_action delete s = record s { deletes = suc s.deletes }
count_action mutate s = record s { mutates = suc s.mutates }
count_action noop s = s

unfoldable pub record_decision : Bool → Decision → Sched → Sched
record_decision unbounded d s =
    let t = count_action d.action s in
    if unbounded then t else record t { decisions = t.decisions ++ d ∷ [] }

abbrev pub decision : Graph → ℕ → Action → ℕ → Decision
decision g offset action i = record {
  offset = offset;
  action = action;
  kind = (node_at g.nodes i).kind;
  key = (node_at g.nodes i).key;
}

abbrev pub idle : ℕ → Decision
idle offset = record { offset = offset; action = noop; kind = ""; key = "" }

unfoldable pub sample_population : Sched → Sched
sample_population s = record s {
  pop_min =
      if (s.pop_samples == 0)
      then s.present
      else (if ltb s.present s.pop_min then s.present else s.pop_min);
  pop_max =
      if (s.pop_samples == 0)
      then s.present
      else (if ltb s.pop_max s.present then s.present else s.pop_max);
  pop_sum = s.pop_sum + s.present;
  pop_samples = suc s.pop_samples;
}
