-- ===== src/Builder/Neutron/Ordered.antt =====
-- The order of the Neutron churn graph's nodes (internal/chaos/neutrongraph/graph.go).
use dizzy.Prelude.{
  Resolves, ℕ, suc, ◌-◌, Verdict-cases, ◌<◌, ◌≤◌, ◌≡◌, refl, sym, ap, ◌∙◌, subst, inl, inr, String,
  In, Fresh, All, List, [], ◌++◌, map, length, valid,
}
use dizzy.Plan.{
  Plan, validate, subnet_pool_names, network_names, router_names, subnet_names,
  security_group_names, port_names,
}
use dizzy.Plan.WellFormed.{WellFormed, validate-WellFormed}
use dizzy.Churn.Graph.{Node, new_graph}
use dizzy.Churn.Results.{Results}
use dizzy.Churn.State.{new_sched}
use dizzy.Churn.Choice.{Source, Knobs}
use dizzy.Churn.Step.{run}
use dizzy.Churn.Population.{IsSound}
use dizzy.Churn.Allowed.{IsFair}
use dizzy.Churn.Invariant.{run-IsSound}
use dizzy.Churn.Layered.{IsOrdered, keys, new_graph-IsLayered}
use dizzy.Churn.Rolling.{IsLayered}
use dizzy.Builder.Neutron.{
  Built, built, invalid_plan, build, plan_nodes, address_scope_node, subnet_pool_node, network_node,
  router_node, security_group_node, subnet_node, group_rule_nodes, port_node, interface_node,
  floating_ip_nodes,
}
use dizzy.Builder.Ordering.{
  Known, last-Known, later-Known, IsOrdered-append, Known-map, In-names, All-both, leaf-ParentsIn,
}
use dizzy.Builder.Neutron.Parents.{
  pools-ParentsIn, subnets-ParentsIn, groups-ParentsIn, ports-ParentsIn, interfaces-ParentsIn,
  floating_ips-ParentsIn,
}

module _ (p : Plan) (external : String) (well : WellFormed p) where
  -- The nodes up to the security groups.
  abbrev roots : List Node
  roots =
      map address_scope_node p.address_scopes
      ++ map subnet_pool_node p.subnet_pools
      ++ map network_node p.networks
      ++ map router_node p.routers
      ++ map security_group_node p.security_groups

  -- The nodes up to the rules.
  abbrev trunk : List Node
  trunk = roots ++ map subnet_node p.subnets ++ group_rule_nodes p.security_groups

  roots-IsOrdered : IsOrdered [] roots
  roots-IsOrdered =
      let x1 = map address_scope_node p.address_scopes in
      let x2 = x1 ++ map subnet_pool_node p.subnet_pools in
      let x3 = x2 ++ map network_node p.networks in
      let x4 = x3 ++ map router_node p.routers in
      let o1 =
        IsOrdered-append [] x1 tt
          (leaf-ParentsIn [] address_scope_node (λ _. refl) p.address_scopes) in
      let o2 =
        IsOrdered-append x1 (map subnet_pool_node p.subnet_pools) o1
          (pools-ParentsIn p well (keys x1) (Known-map address_scope_node p.address_scopes)) in
      let o3 =
        IsOrdered-append x2 (map network_node p.networks) o2
          (leaf-ParentsIn (keys x2) network_node (λ _. refl) p.networks) in
      let o4 =
        IsOrdered-append x3 (map router_node p.routers) o3
          (leaf-ParentsIn (keys x3) router_node (λ _. refl) p.routers) in
      IsOrdered-append x4 (map security_group_node p.security_groups) o4
        (leaf-ParentsIn (keys x4) security_group_node (λ _. refl) p.security_groups)

  abbrev Roots : List Node → Type 0
  Roots xs =
      Known (network_names p) (keys xs)
      × Known (subnet_pool_names p) (keys xs)
      × Known (router_names p) (keys xs)
      × Known (security_group_names p) (keys xs)

  later-Roots : (xs ys : List Node) → Roots xs → Roots (xs ++ ys)
  later-Roots xs ys (n, sp, r, sg) = (
    later-Known (network_names p) xs ys n,
    later-Known (subnet_pool_names p) xs ys sp,
    later-Known (router_names p) xs ys r,
    later-Known (security_group_names p) xs ys sg,
  )

  roots-Roots : Roots roots
  roots-Roots =
      let x1 = map address_scope_node p.address_scopes in
      let x2 = x1 ++ map subnet_pool_node p.subnet_pools in
      let x3 = x2 ++ map network_node p.networks in
      let x4 = x3 ++ map router_node p.routers in
      let sgs = map security_group_node p.security_groups in
      (
        later-Known (network_names p) x4 sgs (
            later-Known (network_names p) x3 (map router_node p.routers)
              (last-Known x2 network_node p.networks)),
        later-Known (subnet_pool_names p) x4 sgs (
            later-Known (subnet_pool_names p) x3 (map router_node p.routers) (
              later-Known (subnet_pool_names p) x2 (map network_node p.networks)
                (last-Known x1 subnet_pool_node p.subnet_pools))),
        later-Known (router_names p) x4 sgs (last-Known x3 router_node p.routers),
        last-Known x4 security_group_node p.security_groups,
      )

  plan_nodes-IsOrdered : IsOrdered [] (plan_nodes p external)
  plan_nodes-IsOrdered =
      let x6 = roots ++ map subnet_node p.subnets in
      let rules = group_rule_nodes p.security_groups in
      let x7 = trunk in
      let x8 = x7 ++ map port_node p.ports in
      let x9 = x8 ++ map interface_node p.router_interfaces in
      let r6 = later-Roots roots (map subnet_node p.subnets) roots-Roots in
      let r7 = later-Roots x6 rules r6 in
      let r8 = later-Roots x7 (map port_node p.ports) r7 in
      let subs6 = last-Known roots subnet_node p.subnets in
      let subs7 = later-Known (subnet_names p) x6 rules subs6 in
      let subs8 = later-Known (subnet_names p) x7 (map port_node p.ports) subs7 in
      let ports8 = last-Known x7 port_node p.ports in
      let ports9 = later-Known (port_names p) x8 (map interface_node p.router_interfaces) ports8 in
      let groups =
        All-both (λ sg. All (λ rule. Resolves (security_group_names p) rule.remote_group) sg.rules)
          (λ sg. In sg.name (security_group_names p)) p.security_groups well.rules
          (In-names (λ sg. sg.name) p.security_groups) in
      let o6 =
        IsOrdered-append roots (map subnet_node p.subnets) roots-IsOrdered
          (subnets-ParentsIn p well (keys roots) roots-Roots.0 roots-Roots.1) in
      let o7 =
        IsOrdered-append x6 rules o6
          (groups-ParentsIn p well (keys x6) p.security_groups r6.3 groups) in
      let o8 =
        IsOrdered-append x7 (map port_node p.ports) o7
          (ports-ParentsIn p well (keys x7) r7.0 subs7 r7.3) in
      let o9 =
        IsOrdered-append x8 (map interface_node p.router_interfaces) o8
          (interfaces-ParentsIn p well (keys x8) r8.2 subs8 ports8) in
      IsOrdered-append x9 (floating_ip_nodes external p.floating_ips) o9
        (floating_ips-ParentsIn p well (keys x9) external ports9)

-- The graph of a plan that `Validate` accepts lists every node after all of its parents, each of
-- which is in the graph.
pub build-IsOrdered :
    (p : Plan) (external : String)
    → validate p ≡ valid
    → (nodes : List Node) × (build p external ≡ built nodes) × IsOrdered [] nodes
unfolding build
build-IsOrdered p external h = (
  plan_nodes p external,
  rw (h, build) refl,
  plan_nodes-IsOrdered p external ((validate-WellFormed p).0 h),
)

abbrev nodes_of : Built → List Node
nodes_of (built nodes) = nodes
nodes_of (invalid_plan e) = []

-- The churn graph that the engine makes of the nodes built for a plan, where no two of them share
-- a key and there is one at all, has no cycle: each node's children rank below it.
pub build-IsLayered :
    (p : Plan) (external : String) (nodes : List Node) (max_parallel concurrency : ℕ)
    → build p external ≡ built nodes
    → Fresh [] (keys nodes)
    → 0 < length nodes
    → IsLayered (new_graph nodes max_parallel concurrency) (λ i. length nodes - suc i)
unfolding build
build-IsLayered p external nodes m c e f some_node = elim (Verdict-cases (validate p)) [
  | inl h ↦
      let found = build-IsOrdered p external h in
      let same : found.0 ≡ nodes = ap nodes_of (sym found.1 ∙ e) in
      new_graph-IsLayered nodes m c some_node f (subst (IsOrdered []) same found.2)
  | inr (err, h) ↦ let bad : build p external ≡ invalid_plan err = rw (h, build) refl in cc (bad, e)
]

-- A whole churn run over the nodes built for a plan, where no two of them share a key and there
-- is one at all, from the empty inventory and on any clock, keeps every parent of a present node
-- present, and holds at most the nodes built.
pub build-run :
    (p : Plan) (external : String) (nodes : List Node) (max_parallel concurrency : ℕ) (src : Source)
    → build p external ≡ built nodes
    → Fresh [] (keys nodes)
    → 0 < length nodes
    → IsFair src
    → (k : Knobs src.Float) (clock : List (ℕ × ℕ)) (res : Results) (r : src.Rng)
    → let g = new_graph nodes max_parallel concurrency in
      let s = (run src g k clock (new_sched res, r)).0 in IsSound g s × (s.present ≤ length nodes)
unfolding new_graph
build-run p external nodes m c src e f some_node fair k clock res r =
    run-IsSound (new_graph nodes m c) (λ i. length nodes - suc i)
      (build-IsLayered p external nodes m c e f some_node) src fair k clock res r
