-- ===== src/Churn/Task.antt =====
-- The tasks that the dispatch functions start (internal/chaos/engine.go), and the result that is
-- assembled from the state. A task waits for its dependencies and a slot (`await`); `admitted` says
-- whether it got one before the run was cancelled. The cloud's answers, with the error as `classify`
-- names it, are a parameter; a panicking call is not modelled.
use dizzy.Prelude.{
  ℕ, Bool, true, false, not, ◌&&◌, ◌||◌, if◌then◌else◌, String, has, Option, none, some, List, [],
  ◌∷◌, ◌++◌, length, range_from, update,
}
use dizzy.Churn.Graph.{Graph, node_at}
use dizzy.Churn.Results.{Bucket, add, cycle, end, buckets}
use dizzy.Churn.State.{
  Resource, Decision, DeleteRetry, Work, create_work, delete_work, mutate_work, retry_work, Op,
  no_op, Retired, NodeState, Sched, is_unsettled,
}

-- What the cloud answers to the call that an operation makes: a create gives a resource, perhaps
-- with an error, a delete or a mutation an error or nothing; and how long the call took.
pub record Cloud : Type 0 where
  pub create : ℕ → List (String × String) → Resource × Option String
  pub delete : ℕ → Option String
  pub mutate : ℕ → Option String
  pub latency : ℕ → ℕ

-- A nil operation would be a panic; a present node has a create.
abbrev pub op_at : (ℕ → Op) → Option ℕ → Op
op_at ops none = no_op
op_at ops (some n) = ops n

abbrev pub failed_with : Option String → Bool
failed_with none = false
failed_with (some e) = true

abbrev kind_of : Option String → String
kind_of none = ""
kind_of (some e) = e

unfoldable pub parent_op_failed : (ℕ → Op) → List (Option ℕ) → Bool
parent_op_failed ops [] = false
parent_op_failed ops (p ∷ ps) =
    (op_at ops p).failed || not (has (op_at ops p).res.id) || parent_op_failed ops ps

-- The parents' keys with the ids of their resources.
unfoldable pub resolve_ids : Graph → (ℕ → Op) → List ℕ → List (Option ℕ) → List (String × String)
resolve_ids g ops [] ps = []
resolve_ids g ops (i ∷ is) [] = []
resolve_ids g ops (i ∷ is) (p ∷ ps) =
    ((node_at g.nodes i).key, (op_at ops p).res.id) ∷ resolve_ids g ops is ps

-- `e.res.add`, and `e.res.cycle` where a delete succeeded.
abbrev note : Cloud → ℕ → ℕ → Option String → Sched → Sched
note cloud n offset e s = record s {
  res = add s.res (record {
    offset = offset;
    latency = cloud.latency n;
    success = not (failed_with e);
    err_kind = kind_of e;
  });
}

abbrev pub note_delete : Cloud → ℕ → ℕ → Option String → Sched → Sched
note_delete cloud n offset none s =
    let t = note cloud n offset none s in record t { res = cycle t.res }
note_delete cloud n offset (some e) s = note cloud n offset (some e) s

-- A retry that ends with the outcome of the delete it follows.
abbrev pub settle_retry : DeleteRetry → Sched → Sched
settle_retry rt s = record s {
  ops = update s.ops rt.op (record (s.ops rt.op) {
    delete_failed = (s.ops rt.prev).delete_failed;
    ids = (s.ops rt.prev).ids;
    done = true;
  });
}

abbrev pub run_retry : Cloud → ℕ → DeleteRetry → Sched → Sched
run_retry cloud offset rt s =
    if (s.ops rt.prev).delete_failed && has (op_at s.ops rt.create).res.id
    then note_delete cloud rt.op offset (cloud.delete rt.op) (record s {
      ops = update s.ops rt.op (record (s.ops rt.op) {
        delete_failed = failed_with (cloud.delete rt.op);
        ids = (s.ops rt.prev).ids;
        done = true;
      });
    })
    else settle_retry rt s

unfoldable pub run_retries : Cloud → ℕ → List DeleteRetry → Sched → Sched
run_retries cloud offset [] s = s
run_retries cloud offset (rt ∷ rts) s = run_retries cloud offset rts (run_retry cloud offset rt s)

unfoldable pub settle_retries : List DeleteRetry → Sched → Sched
settle_retries [] s = s
settle_retries (rt ∷ rts) s = settle_retries rts (settle_retry rt s)

-- `end` of the results and `close(o.done)`, with the operation's outcome.
abbrev pub close : ℕ → (Op → Op) → Sched → Sched
close n outcome s = record s {
  ops = update s.ops n (record (outcome (s.ops n)) { done = true });
  res = end s.res (s.ops n).offset;
}

abbrev keep : Op → Op
keep o = o

-- The part of a create's task behind the retries.
unfoldable pub create_task : Graph → Cloud → ℕ → ℕ → List (Option ℕ) → Sched → Sched
unfolding parent_op_failed resolve_ids
create_task g cloud n idx parents s =
    let (res, e) = cloud.create n (resolve_ids g s.ops (g.parents idx) parents) in
    if parent_op_failed s.ops parents
    then close n keep s
    else close n (λ o. record o { res = res; failed = failed_with e })
        (note cloud n (s.ops n).offset e s)

unfoldable pub delete_task : Graph → Cloud → ℕ → ℕ → List (Option ℕ) → Option ℕ → Sched → Sched
unfolding resolve_ids
delete_task g cloud n idx parents made s =
    let ids = resolve_ids g s.ops (g.parents idx) parents in
    if has (op_at s.ops made).res.id
    then close n (λ o. record o { ids = ids; delete_failed = failed_with (cloud.delete n) })
        (note_delete cloud n (s.ops n).offset (cloud.delete n) s)
    else close n (λ o. record o { ids = ids; delete_failed = false }) s

unfoldable pub mutate_task : Cloud → ℕ → List (Option ℕ) → Option ℕ → Sched → Sched
unfolding parent_op_failed
mutate_task cloud n parents made s =
    if parent_op_failed s.ops parents
      || (op_at s.ops made).failed
      || not (has (op_at s.ops made).res.id)
    then close n keep s
    else close n keep (note cloud n (s.ops n).offset (cloud.mutate n) s)

-- The whole task of operation `n`.
unfoldable pub run_task : Graph → Cloud → Bool → ℕ → Work → Sched → Sched
run_task g cloud true n (create_work idx parents retries) s =
    create_task g cloud n idx parents (run_retries cloud (s.ops n).offset retries s)
run_task g cloud false n (create_work idx parents retries) s =
    close n keep (settle_retries retries s)
run_task g cloud true n (delete_work idx parents made) s = delete_task g cloud n idx parents made s
run_task g cloud true n (mutate_work idx parents made) s = mutate_task cloud n parents made s
run_task g cloud false n (delete_work idx parents made) s = close n keep s
run_task g cloud false n (mutate_work idx parents made) s = close n keep s
run_task g cloud admitted n retry_work s = s

unfoldable pub complete : Graph → Cloud → Bool → ℕ → Sched → Sched
unfolding run_task create_task delete_task mutate_task run_retries settle_retries
complete g cloud admitted n s = run_task g cloud admitted n (s.ops n).work s

-- The instances that may still be in the cloud.
abbrev pub retired_resources : (ℕ → Op) → List Retired → List Resource
retired_resources ops [] = []
retired_resources ops (r ∷ rs) =
    let rest = retired_resources ops rs in
    let made = op_at ops r.create in
    if made.done && has made.res.id && is_unsettled ops r then made.res ∷ rest else rest

abbrev pub present_resource : (ℕ → Op) → NodeState → List Resource
present_resource ops st =
    let made = op_at ops st.create in
    if st.present && made.done && has made.res.id then made.res ∷ [] else []

unfoldable pub live_of : Sched → List ℕ → List Resource
live_of s [] = []
live_of s (i ∷ is) =
    retired_resources s.ops (s.states i).retired
    ++ (present_resource s.ops (s.states i) ++ live_of s is)

unfoldable pub live_resources : Graph → Sched → List Resource
unfolding live_of
live_resources g s = live_of s (range_from 0 (length g.nodes))

-- `PopMean` is the quotient of `pop_sum` and `pop_samples`, which are kept; `TargetFill` and
-- `BucketWidth` repeat the config and are left out.
pub record Report : Type 0 where
  pub decisions : List Decision
  pub created : List Resource
  pub creates : ℕ
  pub deletes : ℕ
  pub mutates : ℕ
  pub cycles : ℕ
  pub pop_min : ℕ
  pub pop_max : ℕ
  pub pop_sum : ℕ
  pub pop_samples : ℕ
  pub buckets : List Bucket

unfoldable pub assemble : Graph → List Decision → Sched → Report
unfolding live_resources
assemble g decisions s = record {
  decisions = decisions;
  created = live_resources g s;
  creates = s.creates;
  deletes = s.deletes;
  mutates = s.mutates;
  cycles = s.res.cycles;
  pop_min = s.pop_min;
  pop_max = s.pop_max;
  pop_sum = s.pop_sum;
  pop_samples = s.pop_samples;
  buckets = buckets s.res;
}
