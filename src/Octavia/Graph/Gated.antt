-- ===== src/Octavia/Graph/Gated.antt =====
-- The gates of the Octavia churn graph (internal/chaos/octaviagraph/graph.go).
use dizzy.Prelude.{
  ℕ, suc, ◌≤◌, ◌≡◌, refl, sym, ◌∙◌, inl, inr, ◌⊎◌, eq_iff, String, Option-cases, none, some, List,
  [], ◌∷◌, ◌++◌, map, In, All, All-map, All-any, All-append, valid, arith,
}
use dizzy.Octavia.Plan.{LoadBalancer, Plan, Parsing, load_balancer_names, validate}
use dizzy.Octavia.Plan.Fits.{IsServable}
use dizzy.Octavia.Plan.Servable.{validate-IsServable}
use dizzy.Octavia.Graph.{
  gates, gate_of, network_node, subnet_node, pool_lb, load_balancer_node, listener_node, pool_node,
  member_node, health_monitor_node, plan_nodes,
}
use dizzy.Octavia.Graph.Ordered.{listener_lbs, member_pools, monitor_pools, pool_lb-In}
use dizzy.Churn.Graph.{Node}
use dizzy.Builder.Ordering.{In-names}

gates-above :
    (i : ℕ) (lbs : List LoadBalancer) (k : String) (g : ℕ) → gates i lbs k ≡ some g → i ≤ g
unfolding gates
gates-above i [] k g h = cc h
gates-above i (lb ∷ lbs) k g h = elim (Option-cases (gates (suc i) lbs k)) [
  | inr (g', e) ↦ let low = gates-above (suc i) lbs k g' e in ground (arith, e, h, low)
  | inl e ↦ ground (arith, e, h)
]

gates-injective :
    (i : ℕ) (lbs : List LoadBalancer) (j k : String) (g : ℕ)
    → gates i lbs j ≡ some g
    → gates i lbs k ≡ some g
    → j ≡ k
unfolding gates
gates-injective i [] j k g h l = cc h
gates-injective i (lb ∷ lbs) j k g h l = elim (Option-cases (gates (suc i) lbs j)) [
  | inr (a, e) ↦ elim (Option-cases (gates (suc i) lbs k)) [
    | inr (b, f) ↦ gates-injective (suc i) lbs j k g (ground (arith, e, h)) (ground (arith, f, l))
    | inl f ↦ let low = gates-above (suc i) lbs j a e in absurd (ground (arith, e, f, h, l, low))
  ]
  | inl e ↦ elim (Option-cases (gates (suc i) lbs k)) [
    | inr (b, f) ↦
        let low = gates-above (suc i) lbs k b f in absurd (ground (arith, e, f, h, l, low))
    | inl f ↦
        (sym ((eq_iff lb.name j).0 (ground (arith, e, h))))
        ∙ (eq_iff lb.name k).0 (ground (arith, f, l))
  ]
]

gates-some :
    (i : ℕ) (lbs : List LoadBalancer) (k : String)
    → In k (map (λ lb. lb.name) lbs)
    → (g : ℕ) × (gates i lbs k ≡ some g)
unfolding gates
gates-some i [] k m = elim m [ ]
gates-some i (lb ∷ lbs) k m = elim (Option-cases (gates (suc i) lbs k)) [
  | inr (g, e) ↦ (g, ground (arith, e))
  | inl e ↦ elim m [
    | In.first x q ↦ (i, ground (arith, e, (eq_iff lb.name k).1 q))
    | In.later r ↦ let found = gates-some (suc i) lbs k r in absurd (cc (e, found.1))
  ]
]

-- A node without a gate is a network or a subnet; any other has the gate of a load balancer, which
-- it is or has for a parent.
abbrev pub Gated : Plan → Node → Type 0
Gated p nd =
    ((nd.gate ≡ none) × ((nd.kind ≡ "network") ⊎ (nd.kind ≡ "subnet")))
    ⊎ ((lb : String) × In lb (load_balancer_names p)
        × In lb (nd.key ∷ nd.parents)
        × (nd.gate ≡ gate_of p lb))

plan_nodes-Gated : (p : Plan) (net : Parsing) → IsServable net p → All (Gated p) (plan_nodes p)
plan_nodes-Gated p net ok =
    let Q : Node → Type 0 = Gated p in
    let x1 = map network_node p.networks in
    let x2 = map subnet_node p.networks in
    let x3 = map (load_balancer_node p) p.load_balancers in
    let x4 = map (listener_node p) p.listeners in
    let x5 = map (pool_node p) p.pools in
    let x6 = map (member_node p) p.members in
    let x7 = map (health_monitor_node p) p.health_monitors in
    let a1 : All Q x1 =
      All-map (λ n. Unit) Q network_node (λ n _. inl (refl, inl refl)) p.networks
        (All-any (λ n. Unit) (λ n. tt) p.networks) in
    let a2 : All Q x2 =
      All-map (λ n. Unit) Q subnet_node (λ n _. inl (refl, inr refl)) p.networks
        (All-any (λ n. Unit) (λ n. tt) p.networks) in
    let a3 : All Q x3 =
      All-map _ Q (load_balancer_node p) (λ lb i. inr (lb.name, i, In.first lb.name refl, refl))
        p.load_balancers (In-names (λ lb. lb.name) p.load_balancers) in
    let a4 : All Q x4 =
      All-map _ Q (listener_node p)
        (λ l i. inr (l.load_balancer, i, In.later (In.first l.load_balancer refl), refl))
        p.listeners (listener_lbs p net ok) in
    let a5 : All Q x5 =
      All-map _ Q (pool_node p)
        (λ pl i. inr (
          pool_lb p pl.name,
          pool_lb-In p net ok pl.name i,
          In.later (In.later (In.first (pool_lb p pl.name) refl)),
          refl,
        ))
        p.pools (In-names (λ pl. pl.name) p.pools) in
    let a6 : All Q x6 =
      All-map _ Q (member_node p)
        (λ m i. inr (
          pool_lb p m.pool,
          pool_lb-In p net ok m.pool i,
          In.later (In.later (In.first (pool_lb p m.pool) refl)),
          refl,
        ))
        p.members (member_pools p net ok) in
    let a7 : All Q x7 =
      All-map _ Q (health_monitor_node p)
        (λ h i. inr (
          pool_lb p h.pool,
          pool_lb-In p net ok h.pool i,
          In.later (In.later (In.first (pool_lb p h.pool) refl)),
          refl,
        ))
        p.health_monitors (monitor_pools p net ok) in
    All-append Q (x1 ++ x2 ++ x3 ++ x4 ++ x5 ++ x6) x7
      (All-append Q (x1 ++ x2 ++ x3 ++ x4 ++ x5) x6
        (All-append Q (x1 ++ x2 ++ x3 ++ x4) x5
          (All-append Q (x1 ++ x2 ++ x3) x4
            (All-append Q (x1 ++ x2) x3 (All-append Q x1 x2 a1 a2) a3) a4)
          a5)
        a6)
      a7

-- In the Octavia graph of a plan that `Validate` accepts, only networks and subnets have no gate;
-- every other node has the gate of a load balancer of the plan that it is or has for a parent. Every
-- load balancer has a gate, and no two have the same.
pub plan_nodes-gates :
    (p : Plan) (net : Parsing)
    → validate p net ≡ valid
    → All (Gated p) (plan_nodes p)
      × ((lb : String) → In lb (load_balancer_names p) → (g : ℕ) × (gate_of p lb ≡ some g))
      × ((j k : String) (g : ℕ) → gate_of p j ≡ some g → gate_of p k ≡ some g → j ≡ k)
plan_nodes-gates p net h = (
  plan_nodes-Gated p net (validate-IsServable p net h),
  gates-some 0 p.load_balancers,
  gates-injective 0 p.load_balancers,
)
