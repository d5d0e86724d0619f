-- ===== src/Tests/Executor.antt =====
-- A service whose first answer is a 503 (internal/executor), and a cloud that logs what is deleted.
use dizzy.Prelude.{
  ℕ, zero, suc, ◌≤◌, ◌<◌, ◌≡◌, refl, ap, subst, if◌then◌else◌, true, false, ◌==◌, String, str_eq,
  has, knows, Option, none, some, List, [], ◌∷◌, length, arith,
}
use dizzy.Churn.State.{Resource}
use dizzy.Executor.Retry.{Errors, with_retry, attempt_from, gives_up, is_retryable, is_conflict}
use dizzy.Executor.Retry.Outcome.{Retried, Ends, with_retry-Ends}
use dizzy.Executor.Stage.{
  Answer, made, refused, answer_resource, Service, Pool, run_stage, provision, handed_out,
  flatten_rules,
}
use dizzy.Executor.Apply.{
  Request, apply, progress, going, Progress, foundation, interior, stage, register,
}
use dizzy.Executor.Apply.Whole.{Created, planned, apply-Created}
use dizzy.Executor.Cleanup.{Cleaner, cleanup}
use dizzy.Executor.Cleanup.Scope.{Scoped, cleanup-Keeps}
use dizzy.Tests.Validation.{topology}

-- An error is its status code.
abbrev codes : Errors
codes = record { E = ℕ; is_quota = λ e. e == 0; code_is = λ e k. e == k }

-- A 503, a 500, and a success; the run is never cancelled.
abbrev busy : ℕ → Option ℕ
busy k = if (k == 1) then some 503 else (if (k == 2) then some 500 else none)

abbrev never : ℕ → Option ℕ
never k = none

busy_thrice : (with_retry codes busy never).calls ≡ 3
unfolding with_retry attempt_from gives_up is_retryable is_conflict
busy_thrice = refl

-- A second conflict is final.
conflict_twice : (with_retry codes (λ k. some 409) never).calls ≡ 2
unfolding with_retry attempt_from gives_up is_retryable is_conflict
conflict_twice = refl

with_retry-Ends_example :
    let r = with_retry codes busy never in
    (1 ≤ r.calls)
    × (r.calls ≤ 5)
    × ((k : ℕ) → 1 ≤ k → k < r.calls → Retried codes busy never k)
    × Ends codes busy never r.calls r.err
with_retry-Ends_example = with_retry-Ends codes busy never

abbrev resource : String → String → Resource
resource kind id = record { kind = kind; logical = ""; name = ""; id = id; persona = ""; lane = "" }

abbrev second_try : ℕ → Answer ℕ
second_try zero = refused 503
second_try (suc zero) = refused 503
second_try (suc (suc k)) = made (resource "network" "id")

abbrev retrying : Service Request ℕ
retrying = record {
  create = λ q k. second_try k;
  cancelled = λ q k. none;
  is_ready = λ q. true;
  halted = λ q. none;
}

second_try-has : (k : ℕ) (r : Resource) → second_try k ≡ made r → has r.id ≡ true
second_try-has zero r h = cc
second_try-has (suc zero) r h = cc
second_try-has (suc (suc k)) r h =
    subst (λ (x : Resource). has x.id ≡ true) (ap answer_resource h) refl

abbrev whole : ℕ → List Request → Pool ℕ
whole k qs = record { before = none; handed_out = length qs; after = none }

ended : Progress
ended = progress (apply codes retrying whole topology "external")

ended_well : apply codes retrying whole topology "external" ≡ going ended
unfolding ended apply foundation interior stage run_stage provision with_retry attempt_from gives_up
    is_retryable is_conflict register handed_out flatten_rules
ended_well = refl

apply-Created_example : Created codes retrying (planned topology "external") ended
apply-Created_example =
    apply-Created codes retrying whole (λ q k r h. second_try-has k r h) (λ k qs h l. omega arith)
      topology "external" ended ended_well

-- Each kind has one tagged resource, and the cloud is the log of the ids deleted.
abbrev logging : Cleaner (List String) ℕ
logging = record {
  list_by_tag = λ kind run_id s. record { value = resource kind "own" ∷ []; err = none; cloud = s };
  detach_router_interfaces = λ id s. record { value = 1; err = none; cloud = s };
  delete_network_ports = λ id s. record { value = 1; err = none; cloud = s };
  delete = λ r s. record { value = 1; err = none; cloud = r.id ∷ s };
  is_not_found = λ e. e == 404;
}

abbrev Own : Resource → Type 0
Own r = str_eq r.id "foreign" ≡ false

abbrev Untouched : List String → Type 0
Untouched s = knows s "foreign" ≡ false

logging-Scoped : Scoped logging "run" Own Untouched
unfolding knows
logging-Scoped = record {
  listed = λ kind s k. (refl, tt);
  list_keeps = λ kind s k. k;
  delete_keeps = λ r s o k. rw (o, k) refl;
  detach_keeps = λ r s o k. k;
  sweep_keeps = λ r s o k. k;
}

cleanup-Keeps_example :
    Untouched (cleanup logging "run" (resource "address-scope" "scope" ∷ []) []).cloud
unfolding knows
cleanup-Keeps_example =
    cleanup-Keeps logging "run" Own Untouched logging-Scoped (resource "address-scope" "scope" ∷ [])
      (λ _. refl, tt) [] refl
