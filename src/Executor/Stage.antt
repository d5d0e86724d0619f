-- ===== src/Executor/Stage.antt =====
-- One stage of an apply (internal/executor/executor.go): `provision`, `runStage` and its helpers.
-- What the cloud answers is a parameter, and so is how the dispatch loop and its workers are
-- scheduled: how many items they took before the stage was cancelled, and `ctx.Err()` before and
-- after it.
pub mod Complete
use dizzy.Prelude.{
  ℕ, zero, suc, Bool, true, false, if◌then◌else◌, String, has, Option, none, some, List, [], ◌∷◌,
  map, ◌++◌, take,
}
use dizzy.Plan.{SecurityGroup, SecurityGroupRule}
use dizzy.Churn.State.{Resource, no_resource}
use dizzy.Executor.Retry.{Errors, with_retry}

-- What a create returns.
pub data Answer (E : Type 0) : Type 0 where
  made : Resource → Answer E
  refused : E → Answer E

abbrev pub answer_err : {E : Type 0} → Answer E → Option E
answer_err (made r) = none
answer_err (refused e) = some e

abbrev pub answer_resource : {E : Type 0} → Answer E → Resource
answer_resource (made r) = r
answer_resource (refused e) = no_resource

-- `create q k` is the answer to the k-th call for a request, `cancelled q k` is `ctx.Err()` in the wait
-- behind it; `is_ready` is whether the resource became ready, `halted` is `ctx.Err()` where not.
pub record Service (Request E : Type 0) : Type 0 where
  pub create : Request → ℕ → Answer E
  pub cancelled : Request → ℕ → Option E
  pub is_ready : Request → Bool
  pub halted : Request → Option E

pub record Pool (E : Type 0) : Type 0 where
  pub before : Option E
  pub handed_out : ℕ
  pub after : Option E

pub record RuleItem : Type 0 where
  pub sg_name : String
  pub rule : SecurityGroupRule

abbrev pub rules_of : String → List SecurityGroupRule → List RuleItem → List RuleItem
rules_of name [] rest = rest
rules_of name (r ∷ rs) rest = record { sg_name = name; rule = r } ∷ rules_of name rs rest

unfoldable pub flatten_rules : List SecurityGroup → List RuleItem
flatten_rules [] = []
flatten_rules (sg ∷ sgs) = rules_of sg.name sg.rules (flatten_rules sgs)

abbrev pub append_created : List Resource → List Resource → List Resource
append_created dst [] = dst
append_created dst (r ∷ rs) = append_created (if has r.id then dst ++ r ∷ [] else dst) rs

module _ (errors : Errors) {Request : Type 0} (service : Service Request errors.E) where
  abbrev pub settle : Request → Resource → Resource × Option errors.E
  settle q r = if service.is_ready q then (r, none) else (r, service.halted q)

  abbrev pub conclude : Request → ℕ → Option errors.E → Resource × Option errors.E
  conclude q calls (some e) = (no_resource, some e)
  conclude q calls none = settle q (answer_resource (service.create q calls))

  unfoldable pub provision : Request → Resource × Option errors.E
  unfolding with_retry
  provision q =
      let r = with_retry errors (λ k. answer_err (service.create q k)) (service.cancelled q) in
      conclude q r.calls r.err

  -- A worker keeps the resource only where there was no error.
  abbrev pub slot_of : Resource × Option errors.E → Resource × Option errors.E
  slot_of (r, none) = (r, none)
  slot_of (r, some e) = (no_resource, some e)

  abbrev pub slots : ℕ → List Request → List (Resource × Option errors.E)
  slots n [] = []
  slots zero (q ∷ qs) = (no_resource, none) ∷ slots zero qs
  slots (suc n) (q ∷ qs) = slot_of (provision q) ∷ slots n qs

  abbrev pub first_quota : List (Resource × Option errors.E) → Option errors.E
  first_quota [] = none
  first_quota ((r, none) ∷ ss) = first_quota ss
  first_quota ((r, some e) ∷ ss) =
      let rest = first_quota ss in if errors.is_quota e then some e else rest

  abbrev pub first_err : List (Resource × Option errors.E) → Option errors.E
  first_err [] = none
  first_err ((r, none) ∷ ss) = first_err ss
  first_err ((r, some e) ∷ ss) = some e

  abbrev pub or_else : Option errors.E → Option errors.E → Option errors.E
  or_else none o = o
  or_else (some e) o = some e

  abbrev pub finish :
      Pool errors.E → List (Resource × Option errors.E) → List Resource × Option errors.E
  finish pool ss = (map (λ s. s.0) ss, or_else (first_quota ss) (or_else pool.after (first_err ss)))

  abbrev pub start :
      Pool errors.E → Option errors.E → List Request → List Resource × Option errors.E
  start pool (some e) qs = ([], some e)
  start pool none qs = finish pool (slots pool.handed_out qs)

  unfoldable pub run_stage : Pool errors.E → List Request → List Resource × Option errors.E
  unfolding provision
  run_stage pool [] = ([], none)
  run_stage pool (q ∷ qs) = start pool pool.before (q ∷ qs)

  abbrev pub reached : Option errors.E → ℕ → List Request → List Request
  reached (some e) n qs = []
  reached none n qs = take n qs

  -- The requests that reached a worker.
  unfoldable pub handed_out : Pool errors.E → List Request → List Request
  handed_out pool qs = reached pool.before pool.handed_out qs
