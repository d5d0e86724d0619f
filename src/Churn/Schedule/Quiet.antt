-- ===== src/Churn/Schedule/Quiet.antt =====
-- The operations' tasks (internal/chaos/engine.go) leave the schedule alone.
use dizzy.Prelude.{
  ℕ, ◌≡◌, refl, ◌∙◌, Bool, true, false, if_both, String, Option, none, some, List, [], ◌∷◌, has,
  ◌&&◌, ◌||◌, not,
}
use dizzy.Churn.Graph.{Graph}
use dizzy.Churn.State.{Sched, DeleteRetry, Work, create_work, delete_work, mutate_work, retry_work}
use dizzy.Churn.Task.{
  Cloud, run_retry, run_retries, settle_retries, settle_retry, create_task, delete_task,
  mutate_task, run_task, complete, op_at, parent_op_failed, note_delete,
}
use dizzy.Churn.Schedule.{view}

view-note_delete :
    (cloud : Cloud) (n offset : ℕ) (e : Option String) (s : Sched)
    → view (note_delete cloud n offset e s) ≡ view s
view-note_delete cloud n offset none s = refl
view-note_delete cloud n offset (some e) s = refl

view-run_retry :
    (cloud : Cloud) (offset : ℕ) (rt : DeleteRetry) (s : Sched)
    → view (run_retry cloud offset rt s) ≡ view s
view-run_retry cloud offset rt s =
    if_both (λ (t : Sched). view t ≡ view s)
      ((s.ops rt.prev).delete_failed && has (op_at s.ops rt.create).res.id)
      (view-note_delete cloud rt.op offset (cloud.delete rt.op) _) refl

view-run_retries :
    (cloud : Cloud) (offset : ℕ) (rts : List DeleteRetry) (s : Sched)
    → view (run_retries cloud offset rts s) ≡ view s
unfolding run_retries
view-run_retries cloud offset [] s = refl
view-run_retries cloud offset (rt ∷ rts) s =
    view-run_retries cloud offset rts (run_retry cloud offset rt s)
    ∙ view-run_retry cloud offset rt s

view-settle_retries : (rts : List DeleteRetry) (s : Sched) → view (settle_retries rts s) ≡ view s
unfolding settle_retries
view-settle_retries [] s = refl
view-settle_retries (rt ∷ rts) s = view-settle_retries rts (settle_retry rt s)

view-create_task :
    (g : Graph) (cloud : Cloud) (n idx : ℕ) (parents : List (Option ℕ)) (s : Sched)
    → view (create_task g cloud n idx parents s) ≡ view s
unfolding create_task
view-create_task g cloud n idx parents s =
    if_both (λ (t : Sched). view t ≡ view s) (parent_op_failed s.ops parents) refl refl

view-delete_task :
    (g : Graph) (cloud : Cloud) (n idx : ℕ) (parents : List (Option ℕ)) (made : Option ℕ)
    (s : Sched)
    → view (delete_task g cloud n idx parents made s) ≡ view s
unfolding delete_task
view-delete_task g cloud n idx parents made s =
    if_both (λ (t : Sched). view t ≡ view s) (has (op_at s.ops made).res.id)
      (view-note_delete cloud n (s.ops n).offset (cloud.delete n) s) refl

view-mutate_task :
    (cloud : Cloud) (n : ℕ) (parents : List (Option ℕ)) (made : Option ℕ) (s : Sched)
    → view (mutate_task cloud n parents made s) ≡ view s
unfolding mutate_task
view-mutate_task cloud n parents made s =
    if_both (λ (t : Sched). view t ≡ view s)
      (parent_op_failed s.ops parents
        || (op_at s.ops made).failed
        || not (has (op_at s.ops made).res.id))
      refl refl

view-run_task :
    (g : Graph) (cloud : Cloud) (admitted : Bool) (n : ℕ) (w : Work) (s : Sched)
    → view (run_task g cloud admitted n w s) ≡ view s
unfolding run_task
view-run_task g cloud true n (create_work idx parents retries) s =
    view-create_task g cloud n idx parents _ ∙ view-run_retries cloud (s.ops n).offset retries s
view-run_task g cloud false n (create_work idx parents retries) s = view-settle_retries retries s
view-run_task g cloud true n (delete_work idx parents made) s =
    view-delete_task g cloud n idx parents made s
view-run_task g cloud true n (mutate_work idx parents made) s =
    view-mutate_task cloud n parents made s
view-run_task g cloud false n (delete_work idx parents made) s = refl
view-run_task g cloud false n (mutate_work idx parents made) s = refl
view-run_task g cloud true n retry_work s = refl
view-run_task g cloud false n retry_work s = refl

-- Whatever the cloud answers, and whether or not it was admitted before the run was cancelled, the
-- task of an operation changes nothing that the schedule of decisions reads or keeps: the inventory,
-- the mutated flags, the log of decisions, the counters and the population samples.
pub view-complete :
    (g : Graph) (cloud : Cloud) (admitted : Bool) (n : ℕ) (s : Sched)
    → view (complete g cloud admitted n s) ≡ view s
unfolding complete
view-complete g cloud admitted n s = view-run_task g cloud admitted n (s.ops n).work s
