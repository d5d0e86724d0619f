-- ===== src/Churn/State.antt =====
-- The scheduler's state (internal/chaos/engine.go): operations, per-node bookkeeping and counters.
-- A pointer to an `op` is its number in the order of allocation, and nil is `none`; what the task
-- of an operation closes over is its `Work`.
use dizzy.Prelude.{
  ℕ, suc, Bool, true, false, not, ◌||◌, if◌then◌else◌, String, Option, none, List, [], ◌∷◌, ◌++◌,
  update,
}
use dizzy.Churn.Results.{Results}

-- internal/resource: the cloud identity of a created resource.
pub record Resource : Type 0 where
  pub kind : String
  pub logical : String
  pub name : String
  pub id : String
  pub persona : String
  pub lane : String

abbrev pub no_resource : Resource
no_resource = record { kind = ""; logical = ""; name = ""; id = ""; persona = ""; lane = "" }

pub data Action : Type 0 where
  create delete mutate noop : Action

pub record Decision : Type 0 where
  pub offset : ℕ
  pub action : Action
  pub kind : String
  pub key : String

-- A second delete of a retired instance, run by the node's next create.
pub record DeleteRetry : Type 0 where
  pub create : Option ℕ
  pub prev : ℕ
  pub op : ℕ

-- The task of an operation: the node, its parents' create operations, and the retries of a create
-- or the create that a delete or a mutation reads its resource from. A retry has no task of its own.
pub data Work : Type 0 where
  create_work : ℕ → List (Option ℕ) → List DeleteRetry → Work
  delete_work : ℕ → List (Option ℕ) → Option ℕ → Work
  mutate_work : ℕ → List (Option ℕ) → Option ℕ → Work
  retry_work : Work

-- `done` is the closed channel; `deps` is what the task waits for.
pub record Op : Type 0 where
  pub done : Bool
  pub res : Resource
  pub failed : Bool
  pub delete_failed : Bool
  pub ids : List (String × String)
  pub deps : List (Option ℕ)
  pub work : Work
  pub offset : ℕ

abbrev pub new_op : Bool → List (Option ℕ) → Work → ℕ → Op
new_op delete_failed deps work offset = record {
  done = false;
  res = no_resource;
  failed = false;
  delete_failed = delete_failed;
  ids = [];
  deps = deps;
  work = work;
  offset = offset;
}

pub record Retired : Type 0 where
  pub create : Option ℕ
  pub del : ℕ

pub record NodeState : Type 0 where
  pub present : Bool
  pub mutated : Bool
  pub create : Option ℕ
  pub last : Option ℕ
  pub retired : List Retired

abbrev pub new_state : NodeState
new_state = record { present = false; mutated = false; create = none; last = none; retired = [] }

-- `present` is the population; `next_op` is the number of the next operation.
pub record Sched : Type 0 where
  pub states : ℕ → NodeState
  pub ops : ℕ → Op
  pub next_op : ℕ
  pub res : Results
  pub present : ℕ
  pub decisions : List Decision
  pub creates : ℕ
  pub deletes : ℕ
  pub mutates : ℕ
  pub pop_min : ℕ
  pub pop_max : ℕ
  pub pop_sum : ℕ
  pub pop_samples : ℕ

abbrev pub no_op : Op
no_op = new_op false [] retry_work 0

unfoldable pub new_sched : Results → Sched
new_sched res = record {
  states = λ _. new_state;
  ops = λ _. no_op;
  next_op = 0;
  res = res;
  present = 0;
  decisions = [];
  creates = 0;
  deletes = 0;
  mutates = 0;
  pop_min = 0;
  pop_max = 0;
  pop_sum = 0;
  pop_samples = 0;
}

abbrev pub is_present : Sched → ℕ → Bool
is_present s i = (s.states i).present

-- A retired instance whose removal is not confirmed yet.
abbrev pub is_unsettled : (ℕ → Op) → Retired → Bool
is_unsettled ops r = not (ops r.del).done || (ops r.del).delete_failed

abbrev pub keep_unsettled : (ℕ → Op) → List Retired → List Retired
keep_unsettled ops [] = []
keep_unsettled ops (r ∷ rs) =
    let rest = keep_unsettled ops rs in if is_unsettled ops r then r ∷ rest else rest

unfoldable pub retire : (ℕ → Op) → List Retired → Option ℕ → ℕ → List Retired
retire ops old made del = keep_unsettled ops old ++ record { create = made; del = del } ∷ []

-- What `retryDeletes` leaves: the node's retired list, the retries and the operations.
pub record Retries : Type 0 where
  pub retired : List Retired
  pub retries : List DeleteRetry
  pub ops : ℕ → Op
  pub next_op : ℕ

abbrev retry_one : ℕ → ℕ → Retired → Retries → Retries
retry_one n offset r rest = record rest {
  retired = record r { del = n } ∷ rest.retired;
  retries = record { create = r.create; prev = r.del; op = n } ∷ rest.retries;
}

abbrev keep_one : Retired → Retries → Retries
keep_one r rest = record rest { retired = r ∷ rest.retired }

unfoldable pub retry_deletes : (ℕ → Op) → ℕ → ℕ → List Retired → Retries
retry_deletes ops n offset [] = record { retired = []; retries = []; ops = ops; next_op = n }
retry_deletes ops n offset (r ∷ rs) =
    let hit = is_unsettled ops r in
    let rest =
      retry_deletes (if hit then update ops n (new_op true [] retry_work offset) else ops)
        (if hit then suc n else n) offset rs in
    if hit then retry_one n offset r rest else keep_one r rest
