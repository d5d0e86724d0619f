-- ===== src/Octavia/Graph.antt =====
-- The Octavia churn graph (`Build` of internal/chaos/octaviagraph/graph.go). The nodes' closures are
-- the cloud's and are not part of a node here.
pub mod Ordered
pub mod Gated
use dizzy.Prelude.{
  ℕ, suc, true, if◌then◌else◌, String, str_eq, Option, none, some, List, [], ◌∷◌, ◌++◌, map, valid,
  invalid,
}
use dizzy.Octavia.Plan.{
  Network, LoadBalancer, Listener, Pool, Member, HealthMonitor, Plan, Parsing, PlanError, find,
  listener_lb, validate,
}
use dizzy.Churn.Graph.{Node, no_node}

pub data Built : Type 0 where
  built : List Node → Built
  invalid_plan : PlanError → Built

-- `gates[name]`: the channel made for the last load balancer of that name, by its number.
unfoldable pub gates : ℕ → List LoadBalancer → String → Option ℕ
gates i [] name = none
gates i (lb ∷ lbs) name =
    let later = gates (suc i) lbs name in
    let own = if str_eq lb.name name then some i else none in
    elim later [ some g ↦ some g | none ↦ own ]

abbrev pub network_node : Network → Node
network_node n = record no_node { key = n.name; kind = "network" }

abbrev pub subnet_node : Network → Node
subnet_node n = record no_node { key = n.subnet; kind = "subnet"; parents = n.name ∷ [] }

module _ (p : Plan) where
  abbrev pub gate_of : String → Option ℕ
  gate_of lb = gates 0 p.load_balancers lb

  abbrev pub subnet_of : String → String
  subnet_of = find (λ n. n.name) (λ n. n.subnet) p.networks

  abbrev pub lb_subnet : String → String
  lb_subnet = find (λ lb. lb.name) (λ lb. subnet_of lb.network) p.load_balancers

  abbrev pub pool_lb : String → String
  pool_lb = find (λ pl. pl.name) (λ pl. listener_lb p pl.listener) p.pools

  abbrev pub load_balancer_node : LoadBalancer → Node
  load_balancer_node lb = record no_node {
    key = lb.name;
    kind = "loadbalancer";
    parents = lb_subnet lb.name ∷ [];
    gate = gate_of lb.name;
  }

  abbrev pub listener_node : Listener → Node
  listener_node l = record no_node {
    key = l.name;
    kind = "listener";
    parents = l.load_balancer ∷ [];
    gate = gate_of l.load_balancer;
    has_mutate = true;
  }

  abbrev pub pool_node : Pool → Node
  pool_node pl = record no_node {
    key = pl.name;
    kind = "pool";
    parents = pl.listener ∷ pool_lb pl.name ∷ [];
    gate = gate_of (pool_lb pl.name);
  }

  abbrev pub member_node : Member → Node
  member_node m = record no_node {
    key = m.name;
    kind = "member";
    parents = m.pool ∷ pool_lb m.pool ∷ lb_subnet (pool_lb m.pool) ∷ [];
    gate = gate_of (pool_lb m.pool);
    has_mutate = true;
  }

  abbrev pub health_monitor_node : HealthMonitor → Node
  health_monitor_node h = record no_node {
    key = h.name;
    kind = "healthmonitor";
    parents = h.pool ∷ pool_lb h.pool ∷ [];
    gate = gate_of (pool_lb h.pool);
  }

  abbrev pub plan_nodes : List Node
  plan_nodes =
      map network_node p.networks
      ++ map subnet_node p.networks
      ++ map load_balancer_node p.load_balancers
      ++ map listener_node p.listeners
      ++ map pool_node p.pools
      ++ map member_node p.members
      ++ map health_monitor_node p.health_monitors

  unfoldable pub build : Parsing → Built
  build net = elim (validate p net) [ invalid e ↦ invalid_plan e | valid ↦ built plan_nodes ]
