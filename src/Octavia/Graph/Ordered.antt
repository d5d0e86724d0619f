-- ===== src/Octavia/Graph/Ordered.antt =====
-- The order of the Octavia churn graph's nodes (internal/chaos/octaviagraph/graph.go).
use dizzy.Prelude.{
  ◌≡◌, refl, String, List, [], ◌++◌, map, In, All, All-map, All-weaken, AllAfter-All, valid,
}
use dizzy.Octavia.Plan.{
  Plan, Parsing, listener_lb, network_names, load_balancer_names, listener_names, pool_names,
  validate,
}
use dizzy.Octavia.Plan.Fits.{IsServable}
use dizzy.Octavia.Plan.Lookup.{find-All}
use dizzy.Octavia.Plan.Servable.{validate-IsServable}
use dizzy.Octavia.Graph.{
  Built, built, invalid_plan, network_node, subnet_node, subnet_of, lb_subnet, pool_lb,
  load_balancer_node, listener_node, pool_node, member_node, health_monitor_node, plan_nodes, build,
}
use dizzy.Churn.Graph.{Node}
use dizzy.Churn.Layered.{IsOrdered, keys}
use dizzy.Builder.Ordering.{
  IsOrdered-append, In-names, All-both, leaf-ParentsIn, last-Known, later-Known,
}

module _ (p : Plan) (net : Parsing) (ok : IsServable net p) where
  abbrev subnet_names : List String
  subnet_names = map (λ n. n.subnet) p.networks

  lb_networks : All (λ lb. In lb.network (network_names p)) p.load_balancers
  lb_networks = AllAfter-All _ _ (λ _ lb w. w.network) [] p.load_balancers ok.load_balancers

  pub listener_lbs : All (λ l. In l.load_balancer (load_balancer_names p)) p.listeners
  listener_lbs = AllAfter-All _ _ (λ _ l w. w.load_balancer) [] p.listeners ok.listeners

  pool_listeners : All (λ pl. In pl.listener (listener_names p)) p.pools
  pool_listeners = AllAfter-All _ _ (λ _ pl w. w.listener) [] p.pools ok.pools

  pub member_pools : All (λ m. In m.pool (pool_names p)) p.members
  member_pools = AllAfter-All _ _ (λ _ m w. w.pool) [] p.members ok.members

  pub monitor_pools : All (λ h. In h.pool (pool_names p)) p.health_monitors
  monitor_pools = AllAfter-All _ _ (λ _ h w. w.pool) [] p.health_monitors ok.health_monitors

  subnet_of-In : (k : String) → In k (network_names p) → In (subnet_of p k) subnet_names
  subnet_of-In k m =
      find-All (λ s. In s subnet_names) (λ n. n.name) (λ n. n.subnet) p.networks k
        (In-names (λ n. n.subnet) p.networks) m

  lb_subnet-In : (k : String) → In k (load_balancer_names p) → In (lb_subnet p k) subnet_names
  lb_subnet-In k m =
      find-All (λ s. In s subnet_names) (λ lb. lb.name) (λ lb. subnet_of p lb.network)
        p.load_balancers k
        (All-weaken _ _ (λ lb n. subnet_of-In lb.network n) p.load_balancers lb_networks) m

  pub pool_lb-In : (k : String) → In k (pool_names p) → In (pool_lb p k) (load_balancer_names p)
  pool_lb-In k m =
      find-All (λ s. In s (load_balancer_names p)) (λ pl. pl.name) (λ pl. listener_lb p pl.listener)
        p.pools k
        (All-weaken _ _
          (λ pl n.
            find-All (λ s. In s (load_balancer_names p)) (λ l. l.name) (λ l. l.load_balancer)
              p.listeners pl.listener listener_lbs n)
          p.pools pool_listeners)
        m

  abbrev Parents : List String → Node → Type 0
  Parents ks nd = All (λ pk. In pk ks) nd.parents

  plan_nodes-IsOrdered : IsOrdered [] (plan_nodes p)
  plan_nodes-IsOrdered =
      let x1 = map network_node p.networks in
      let subs = map subnet_node p.networks in
      let x2 = x1 ++ subs in
      let lbs = map (load_balancer_node p) p.load_balancers in
      let x3 = x2 ++ lbs in
      let ls = map (listener_node p) p.listeners in
      let x4 = x3 ++ ls in
      let pls = map (pool_node p) p.pools in
      let x5 = x4 ++ pls in
      let ms = map (member_node p) p.members in
      let x6 = x5 ++ ms in
      let nets1 = last-Known [] network_node p.networks in
      let subs2 = last-Known x1 subnet_node p.networks in
      let subs5 =
        later-Known subnet_names x4 pls
          (later-Known subnet_names x3 ls (later-Known subnet_names x2 lbs subs2)) in
      let lbs3 = last-Known x2 (load_balancer_node p) p.load_balancers in
      let lbs4 = later-Known (load_balancer_names p) x3 ls lbs3 in
      let lbs5 = later-Known (load_balancer_names p) x4 pls lbs4 in
      let lbs6 = later-Known (load_balancer_names p) x5 ms lbs5 in
      let ls4 = last-Known x3 (listener_node p) p.listeners in
      let pls5 = last-Known x4 (pool_node p) p.pools in
      let pls6 = later-Known (pool_names p) x5 ms pls5 in
      let o1 = IsOrdered-append [] x1 tt (leaf-ParentsIn [] network_node (λ _. refl) p.networks) in
      let o2 = IsOrdered-append x1 subs o1 (
        All-map _ (Parents (keys x1)) subnet_node (λ n i. (nets1 n.name i, tt)) p.networks
          (In-names (λ n. n.name) p.networks)) in
      let o3 = IsOrdered-append x2 lbs o2 (
        All-map _ (Parents (keys x2)) (load_balancer_node p)
          (λ lb i. (subs2 (lb_subnet p lb.name) (lb_subnet-In lb.name i), tt)) p.load_balancers
          (In-names (λ lb. lb.name) p.load_balancers)) in
      let o4 = IsOrdered-append x3 ls o3 (
        All-map _ (Parents (keys x3)) (listener_node p) (λ l i. (lbs3 l.load_balancer i, tt))
          p.listeners listener_lbs) in
      let o5 = IsOrdered-append x4 pls o4 (
        All-map _ (Parents (keys x4)) (pool_node p)
          (λ pl i. (ls4 pl.listener i.0, (lbs4 (pool_lb p pl.name) (pool_lb-In pl.name i.1), tt)))
          p.pools (All-both _ _ p.pools pool_listeners (In-names (λ pl. pl.name) p.pools))) in
      let o6 = IsOrdered-append x5 ms o5 (
        All-map _ (Parents (keys x5)) (member_node p)
          (λ m i. (
            pls5 m.pool i,
            (
              lbs5 (pool_lb p m.pool) (pool_lb-In m.pool i),
              (subs5 (lb_subnet p (pool_lb p m.pool)) (lb_subnet-In _ (pool_lb-In m.pool i)), tt),
            ),
          ))
          p.members member_pools) in
      IsOrdered-append x6 (map (health_monitor_node p) p.health_monitors) o6 (
        All-map _ (Parents (keys x6)) (health_monitor_node p)
          (λ h i. (pls6 h.pool i, (lbs6 (pool_lb p h.pool) (pool_lb-In h.pool i), tt)))
          p.health_monitors monitor_pools)

-- A graph was built, and lists each node after its parents.
abbrev pub Orders : Built → Type 0
Orders (built nodes) = IsOrdered [] nodes
Orders (invalid_plan e) = ⊥

-- Of a plan that `Validate` accepts a graph is built, and it lists every node after all of its
-- parents, each of which is in the graph, those too that are looked up: a load balancer's subnet, a
-- pool's load balancer, and both of a member.
pub build-Orders : (p : Plan) (net : Parsing) → validate p net ≡ valid → Orders (build p net)
unfolding build
build-Orders p net h = rw (h, build) (plan_nodes-IsOrdered p net (validate-IsServable p net h))
