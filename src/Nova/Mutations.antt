-- ===== src/Nova/Mutations.antt =====
-- The repeatable mutations of a long-lived graph (`serverMutation`, `volumeToggle`, `portToggle` and
-- `toggle` of internal/chaos/novagraph/graph.go). What a closure keeps between its calls is passed
-- on as its state.
pub mod Flavor
pub mod Attached
use dizzy.Prelude.{ℕ, Bool, true, false, not, if◌then◌else◌, String, List, length, get_or}
use dizzy.Nova.Plan.{Server, Volume, Port}
use dizzy.Nova.Graph.{
  Resolved, ServerOp, stop_start_op, resize_op, live_migrate_op, cold_migrate_op, server_ops,
}
use dizzy.Nova.Cloud.{
  Answer, failed, answered, Done, Cloud, St, Op, perform, ◌>>◌, attach_volume, detach_volume,
  attach_port, detach_port, wait_for_port_detached, wait_for_volume_detached,
  wait_for_volume_status,
}
use dizzy.Nova.Operations.{
  Ids, server_ref, retried, stop_start, resize, live_migrate, cold_migrate, detach,
  status_volume_available, status_volume_in_use,
}
use dizzy.Churn.State.{Resource}

module _ (c : Cloud) where
  -- An operation with the closure's state before and after it.
  abbrev pub Keeping : Type 0 → Type 0
  Keeping M = M → St c → (Answer c.E Done × M) × St c

  -- The state changes only where the step succeeded.
  unfoldable pub flip_after : Op c → Keeping Bool
  flip_after op flag s =
      let (a, s') = op s in
      (elim a [ failed e ↦ (failed e, flag) | answered _ ↦ (answered tt, not flag) ], s')

  unfoldable pub toggle :
      (Resource → Resource → Op c)
      → (Resource → Resource → Op c)
      → String
      → Ids
      → Resource
      → Keeping Bool
  unfolding flip_after
  toggle detach_step attach_step server ids res attached =
      let step = if attached then detach_step else attach_step in
      flip_after (step (server_ref server ids) res) attached

  unfoldable pub volume_detach : Resource → Resource → Op c
  volume_detach server res =
      detach c (detach_volume server res)
      >> perform c (wait_for_volume_status res status_volume_available)
      >> perform c (wait_for_volume_detached server res)

  unfoldable pub volume_attach : Resource → Resource → Op c
  volume_attach server res =
      retried c (attach_volume server res)
      >> perform c (wait_for_volume_status res status_volume_in_use)

  unfoldable pub volume_toggle : Volume → Ids → Resource → Keeping Bool
  unfolding toggle volume_detach volume_attach
  volume_toggle v = toggle volume_detach volume_attach v.server

  unfoldable pub port_detach : Resource → Resource → Op c
  port_detach server res =
      detach c (detach_port server res) >> perform c (wait_for_port_detached server res)

  unfoldable pub port_attach : Resource → Resource → Op c
  port_attach server res = retried c (attach_port server res)

  unfoldable pub port_toggle : Port → Ids → Resource → Keeping Bool
  unfolding toggle port_detach port_attach
  port_toggle pt = toggle port_detach port_attach pt.server

  -- The flavor that the next resize goes to.
  unfoldable pub target : Resolved → Bool → String
  target r resized = if resized then r.flavor_id else r.resize_flavor_id

  -- A server that already has the target flavor is resized the other way.
  unfoldable pub resize_step : Resolved → Resource → Keeping Bool
  unfolding target flip_after
  resize_step r res resized s =
      let (a, s') = resize c res (target r resized) s in
      let other = flip_after (resize c res (target r (not resized))) (not resized) s' in
      elim a [
        | answered _ ↦ ((answered tt, not resized), s')
        | failed e ↦ if c.is_same_flavor e then other else ((failed e, resized), s')
      ]

  unfoldable pub keep : Op c → Keeping Bool
  keep op flag s = let (a, s') = op s in ((a, flag), s')

  unfoldable pub run_op : Resolved → Server → Resource → ServerOp → Keeping Bool
  unfolding keep resize_step
  run_op r s res stop_start_op = keep (stop_start c res s.stop_start)
  run_op r s res resize_op = resize_step r res
  run_op r s res live_migrate_op = keep (live_migrate c res)
  run_op r s res cold_migrate_op = keep (cold_migrate c res)

  -- The drawn operation; `intn` is `rng.Intn`.
  unfoldable pub server_mutation :
      {Rng : Type 0}
      → (Rng → ℕ → ℕ × Rng)
      → Resolved
      → Server
      → Resource
      → Rng
      → Bool
      → St c
      → Rng × (Answer c.E Done × Bool) × St c
  unfolding run_op server_ops
  server_mutation intn r s res rng resized st =
      let ops = server_ops r s in
      let (i, rng') = intn rng (length ops) in
      let (out, st') = run_op r s res (get_or ops i stop_start_op) resized st in (rng', out, st')
