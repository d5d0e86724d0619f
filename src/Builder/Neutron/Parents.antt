-- ===== src/Builder/Neutron/Parents.antt =====
-- The parents of each group of nodes of the Neutron churn graph
-- (internal/chaos/neutrongraph/graph.go).
use dizzy.Prelude.{
  Resolves, ℕ, suc, inl, inr, if_cases, if_both, String, has, has_iff, has-not, knows, In, All,
  All-map, All-append, All-weaken, List, [], ◌∷◌, ◌++◌, map,
}
use dizzy.Plan.{
  SecurityGroup, SecurityGroupRule, Plan, address_scope_names, subnet_pool_names, network_names,
  router_names, subnet_names, security_group_names, port_names,
}
use dizzy.Plan.WellFormed.{WellFormed, SubnetResolves, InterfaceResolves, PortResolves}
use dizzy.Builder.Neutron.{
  non_empty, dedup_from, subnet_pool_node, subnet_node, rule_nodes, group_rule_nodes, port_node,
  interface_node, floating_ip_node, floating_ip_nodes,
}
use dizzy.Builder.Ordering.{Known, ParentsIn}

All-dedup_from :
    (P : String → Type 0) (seen refs : List String) → All P refs → All P (dedup_from seen refs)
All-dedup_from P seen [] a = tt
All-dedup_from P seen (r ∷ refs) a =
    if_both (All P) (knows seen r) (All-dedup_from P seen refs a.1)
      (a.0, All-dedup_from P (r ∷ seen) refs a.1)

All-non_empty :
    (names ks : List String) (ref : String)
    → Known names ks
    → Resolves names ref
    → All (λ pk. In pk ks) (non_empty ref)
All-non_empty names ks ref h r =
    if_cases (All (λ pk. In pk ks)) (has ref)
      (λ some_ref. elim r [ inl e ↦ absurd ((has_iff ref).0 some_ref e) | inr m ↦ (h ref m, tt) ])
      (λ _. tt)

module _ (p : Plan) (well : WellFormed p) (ks : List String) where
  pub subnets-ParentsIn :
      Known (network_names p) ks
      → Known (subnet_pool_names p) ks
      → ParentsIn ks (map subnet_node p.subnets)
  subnets-ParentsIn nets pools =
      All-map (SubnetResolves p) (λ nd. All (λ pk. In pk ks) nd.parents) subnet_node
        (λ s r.
          (nets s.network r.0, All-non_empty (subnet_pool_names p) ks s.subnet_pool pools r.1))
        p.subnets well.subnets

  pub rules-ParentsIn :
      (group : String) (j : ℕ) (rules : List SecurityGroupRule)
      → Known (security_group_names p) ks
      → In group (security_group_names p)
      → All (λ rule. Resolves (security_group_names p) rule.remote_group) rules
      → ParentsIn ks (rule_nodes group j rules)
  rules-ParentsIn group j [] h m a = tt
  rules-ParentsIn group j (rule ∷ rules) h m a = (
    All-dedup_from (λ pk. In pk ks) [] (group ∷ non_empty rule.remote_group)
        (h group m, All-non_empty (security_group_names p) ks rule.remote_group h a.0),
    rules-ParentsIn group (suc j) rules h m a.1,
  )

  pub groups-ParentsIn :
      (sgs : List SecurityGroup)
      → Known (security_group_names p) ks
      → All
          (λ sg.
            All (λ rule. Resolves (security_group_names p) rule.remote_group) sg.rules
            × In sg.name (security_group_names p))
          sgs
      → ParentsIn ks (group_rule_nodes sgs)
  groups-ParentsIn [] h a = tt
  groups-ParentsIn (sg ∷ sgs) h a =
      All-append (λ nd. All (λ pk. In pk ks) nd.parents) (rule_nodes sg.name 0 sg.rules)
        (group_rule_nodes sgs) (rules-ParentsIn sg.name 0 sg.rules h a.0.1 a.0.0)
        (groups-ParentsIn sgs h a.1)

  pub ports-ParentsIn :
      Known (network_names p) ks
      → Known (subnet_names p) ks
      → Known (security_group_names p) ks
      → ParentsIn ks (map port_node p.ports)
  ports-ParentsIn nets subs groups =
      All-map (PortResolves p) (λ nd. All (λ pk. In pk ks) nd.parents) port_node
        (λ pt r.
          All-dedup_from (λ pk. In pk ks) []
            (pt.network ∷ map (λ fip. fip.subnet) pt.fixed_ips ++ pt.security_groups)
            (
              nets pt.network r.0,
              All-append (λ pk. In pk ks) (map (λ fip. fip.subnet) pt.fixed_ips) pt.security_groups
                  (All-map (λ fip. In fip.subnet (subnet_names p)) (λ pk. In pk ks)
                    (λ fip. fip.subnet) (λ fip. subs fip.subnet) pt.fixed_ips r.1)
                  (All-weaken (λ sg. In sg (security_group_names p)) (λ pk. In pk ks) groups
                    pt.security_groups r.2),
            ))
        p.ports well.ports

  pub interfaces-ParentsIn :
      Known (router_names p) ks
      → Known (subnet_names p) ks
      → Known (port_names p) ks
      → ParentsIn ks (map interface_node p.router_interfaces)
  interfaces-ParentsIn routers subs ports =
      All-map (InterfaceResolves p) (λ nd. All (λ pk. In pk ks) nd.parents) interface_node
        (λ ri r. (
          routers ri.router r.0,
          (
            elim r.1 [
              | inl (a, b, c) ↦
                  if_cases (λ x. In x ks) (has ri.subnet) (λ _. subs ri.subnet c)
                    (λ none. absurd (a ((has-not ri.subnet).0 none)))
              | inr (a, b, c) ↦
                  if_cases (λ x. In x ks) (has ri.subnet)
                    (λ some_name. absurd ((has_iff ri.subnet).0 some_name a)) (λ _. ports ri.port c)
            ],
            tt,
          ),
        ))
        p.router_interfaces well.interfaces

  pub floating_ips-ParentsIn :
      (external : String)
      → Known (port_names p) ks
      → ParentsIn ks (floating_ip_nodes external p.floating_ips)
  floating_ips-ParentsIn external ports =
      if_both (ParentsIn ks) (has external)
        (All-map (λ fip. Resolves (port_names p) fip.port) (λ nd. All (λ pk. In pk ks) nd.parents)
          floating_ip_node (λ fip r. All-non_empty (port_names p) ks fip.port ports r)
          p.floating_ips well.floating_ips)
        tt

  pub pools-ParentsIn :
      Known (address_scope_names p) ks → ParentsIn ks (map subnet_pool_node p.subnet_pools)
  pools-ParentsIn scopes =
      All-map (λ sp. Resolves (address_scope_names p) sp.address_scope)
        (λ nd. All (λ pk. In pk ks) nd.parents) subnet_pool_node
        (λ sp r. All-non_empty (address_scope_names p) ks sp.address_scope scopes r) p.subnet_pools
        well.subnet_pools
