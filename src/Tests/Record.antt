-- ===== src/Tests/Record.antt =====
-- The first node of the small graph, created and then deleted in vain (internal/chaos/engine.go).
use dizzy.Prelude.{◌<◌, refl, inl, inr, true, some, [], length, arith}
use dizzy.Churn.Graph.{new_graph}
use dizzy.Churn.State.{Sched, new_sched, retire, retry_deletes}
use dizzy.Churn.Dispatch.{dispatch_create, dispatch_delete}
use dizzy.Churn.Step.{step}
use dizzy.Churn.Task.{complete, op_at, live_resources}
use dizzy.Churn.Record.{Owed}
use dizzy.Churn.Record.Kept.{step-Owed}
use dizzy.Churn.Record.Listed.{Lists, Made, live_resources-Lists}
use dizzy.Tests.Churn.{counting, counting-IsFair, small, knobs, start, faulty}

created : Sched
created = complete small faulty true 0 (dispatch_create small 0 2 start)

-- The node is deleted, and the cloud answers the delete with an error.
left : Sched
left = complete small faulty true 1 (dispatch_delete small 0 5 [] created)

left-Owed : Owed left 0 (some 0)
unfolding left created complete dispatch_delete dispatch_create new_sched new_graph retry_deletes
    retire
left-Owed = inr (inl (refl, inr refl))

left-Made : Made left.ops (some 0)
unfolding left created complete dispatch_delete dispatch_create new_sched new_graph retry_deletes
    retire
left-Made = (refl, refl)

in_range : 0 < length small.nodes
unfolding new_graph
in_range = omega arith

step-Owed_example : Owed (step counting small knobs 8 (left, 0)).0 0 (some 0)
step-Owed_example = step-Owed counting counting-IsFair small knobs 8 0 (some 0) left 0 left-Owed

live_resources-Lists_example : Lists (live_resources small left) (op_at left.ops (some 0)).res
live_resources-Lists_example =
    live_resources-Lists small left 0 (some 0) in_range left-Made left-Owed
