-- ===== src/Tests/Nova.antt =====
-- Concrete inputs for Nova (internal/nova/plan/plan.go, internal/chaos/novagraph/graph.go): a plan
-- of one cluster with one server, its volume and its port.
mod Calls
use dizzy.Prelude.{
  suc, ◌-◌, ◌<◌, ◌≡◌, ◌↔◌, refl, Bool, true, false, String, In, Fresh, knows, List, [], ◌∷◌, length,
  pos, valid, arith,
}
use dizzy.Nova.Plan.{
  Server, Plan, stop_start_soft, policy_anti_affinity, validate, server_networks, valid_policy,
  check_server_group, check_server, check_volume, check_port, is_empty,
}
use dizzy.Nova.Plan.WellFormed.{IsDeployable, validate-IsDeployable}
use dizzy.Nova.Graph.{
  Resolved, built, plan_nodes, rolling_node, groups_of, pinned_node, set_mutations, build,
  build_rolling, build_long_lived, is_root_kind, family, has_lifecycle, put, put_servers, put_owned,
  groupless, set_mutate, set_where, server_ops, has_mutation,
}
use dizzy.Nova.Graph.Rolled.{build_rolling-Rolls}
use dizzy.Nova.Graph.LongLived.{build_long_lived-Lives}
use dizzy.Nova.Graph.Kept.{build_rolling-lasting, build_long_lived-lasting}
use dizzy.Prelude.{map}
use dizzy.Churn.Graph.{
  Node, Graph, node_at, new_graph, new_links, index_keys, find_key, link, link_parents, link_nodes,
}
use dizzy.Churn.Results.{new_results}
use dizzy.Churn.State.{Sched, new_sched, is_present}
use dizzy.Churn.Dispatch.{
  sample_population, dispatch_create, dispatch_delete, dispatch_mutate, record_decision,
}
use dizzy.Churn.Choice.{
  choose, eager_create_candidates, create_candidates, delete_candidates, mutate_candidates,
  p_create,
}
use dizzy.Churn.Step.{run, step}
use dizzy.Churn.Population.{IsSound}
use dizzy.Churn.Invariant.{run-IsSound}
use dizzy.Churn.Layered.{keys, new_graph-IsLayered}
use dizzy.Tests.Builder.{is_fresh-Fresh}
use dizzy.Tests.Churn.{counting, counting-IsFair, knobs, clock}

abbrev worker : Server
worker = record {
  name = "srv-0001";
  boot_from_volume = false;
  root_volume_gib = pos 0;
  networks = "net-0001" ∷ [];
  group = "grp-0001";
  user_data = false;
  stop_start = stop_start_soft;
  resize = false;
  live_migrate = true;
  cold_migrate = false;
  delete = false;
}

abbrev plan : Plan
plan = record {
  scenario = "cluster";
  seed = pos 7;
  image = "image";
  flavor = "flavor";
  resize_flavor = "";
  networks = record { name = "net-0001"; subnet = "sub-0001"; cidr = "10.0.1.0/24" } ∷ [];
  server_groups = record { name = "grp-0001"; policy = policy_anti_affinity } ∷ [];
  servers = worker ∷ [];
  volumes = record { name = "vol-0001"; size_gib = pos 1; server = "srv-0001"; detach = true } ∷ [];
  ports =
      record { name = "port-0001"; network = "net-0001"; server = "srv-0001"; detach = false } ∷ [];
}

abbrev pub resolved : Resolved
resolved = record {
  image_id = "i";
  flavor_id = "small";
  resize_flavor_id = "large";
  live_migration = true;
  cold_migration = false;
}

plan_passes : validate plan ≡ valid
unfolding validate valid_policy check_server_group check_server check_volume check_port is_empty
    server_networks knows
plan_passes = refl

validate-IsDeployable_example : (validate plan ≡ valid) ↔ IsDeployable plan
validate-IsDeployable_example = validate-IsDeployable plan

abbrev rolling : List Node
rolling = map (rolling_node (groups_of plan)) (plan_nodes plan resolved)

rolling-built : build_rolling plan resolved ≡ built rolling
unfolding build_rolling build groupless validate valid_policy check_server_group check_server
    check_volume check_port is_empty server_networks knows
rolling-built = refl

rolling-Fresh : Fresh [] (keys rolling)
unfolding knows
rolling-Fresh = is_fresh-Fresh [] (keys rolling) refl

abbrev long_lived : List Node
long_lived = set_mutations plan resolved (map pinned_node (plan_nodes plan resolved))

long_lived-built : build_long_lived plan resolved ≡ built long_lived
unfolding build_long_lived build validate valid_policy check_server_group check_server check_volume
    check_port is_empty server_networks knows
long_lived-built = refl

long_lived-Fresh : Fresh [] (keys long_lived)
unfolding knows set_where set_mutate has_mutation server_ops index_keys find_key
long_lived-Fresh = is_fresh-Fresh [] (keys long_lived) refl

-- What a run of the graph reaches from the empty inventory.
abbrev reached : List Node → Sched
reached nodes =
    (run counting (new_graph nodes 3 2) knobs clock (new_sched (new_results false 0 100), 0)).0

rolling-present : is_present (reached rolling) 1 ≡ true
unfolding run step new_graph choose eager_create_candidates create_candidates sample_population
    new_sched dispatch_create record_decision delete_candidates p_create dispatch_delete new_links
    index_keys find_key link link_parents link_nodes put_owned put_servers put
rolling-present = refl

rolling-IsSound : IsSound (new_graph rolling 3 2) (reached rolling)
unfolding new_graph
rolling-IsSound =
    let made = build_rolling-Rolls plan resolved rolling rolling-built in
    (run-IsSound (new_graph rolling 3 2) (λ i. length rolling - suc i)
      (new_graph-IsLayered rolling 3 2 (omega arith) rolling-Fresh made.ordered) counting
      counting-IsFair knobs clock (new_results false 0 100) 0).0

build_rolling-lasting_example :
    let g = new_graph rolling 3 2 in
    let t = (run counting g knobs clock (reached rolling, 4)).0 in
    IsSound g t × (is_present t 1 ≡ true)
build_rolling-lasting_example =
    build_rolling-lasting plan resolved rolling 3 2 counting rolling-built rolling-Fresh
      counting-IsFair knobs clock (reached rolling) 4 1 rolling-IsSound (omega arith) refl
      rolling-present

long_lived-present : is_present (reached long_lived) 2 ≡ true
unfolding run step new_graph choose eager_create_candidates create_candidates sample_population
    new_sched dispatch_create record_decision delete_candidates p_create dispatch_delete new_links
    index_keys find_key link link_parents link_nodes set_where set_mutate has_mutation server_ops
    has_lifecycle mutate_candidates dispatch_mutate
long_lived-present = refl

long_lived-length : length long_lived ≡ 5
unfolding set_where set_mutate has_mutation server_ops index_keys find_key
long_lived-length = refl

long_lived-IsSound : IsSound (new_graph long_lived 3 2) (reached long_lived)
unfolding new_graph
long_lived-IsSound =
    let made = build_long_lived-Lives plan resolved long_lived long_lived-built in
    (run-IsSound (new_graph long_lived 3 2) (λ i. length long_lived - suc i)
      (new_graph-IsLayered long_lived 3 2 (omega (arith, long_lived-length)) long_lived-Fresh
        made.ordered)
      counting counting-IsFair knobs clock (new_results false 0 100) 0).0

build_long_lived-lasting_example :
    is_present (run counting (new_graph long_lived 3 2) knobs clock (reached long_lived, 4)).0 2
    ≡ true
build_long_lived-lasting_example =
    build_long_lived-lasting plan resolved long_lived 3 2 counting long_lived-built long_lived-Fresh
      counting-IsFair knobs clock (reached long_lived) 4 2 long_lived-IsSound
      (omega (arith, long_lived-length)) long_lived-present
