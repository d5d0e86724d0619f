-- ===== src/Builder/Neutron.antt =====
-- The Neutron churn graph (internal/chaos/neutrongraph/graph.go). The nodes' closures are the
-- cloud's and are not part of a node here.
pub mod Parents
pub mod Ordered
use Prim.Native.String.{◌++◌ as str_append}
use dizzy.Prelude.{
  ℕ, suc, Bool, if◌then◌else◌, String, has, knows, List, [], ◌∷◌, ◌++◌, map, valid, invalid,
  decimal,
}
use dizzy.Plan.{
  AddressScope, SubnetPool, Network, Subnet, Router, RouterInterface, SecurityGroupRule,
  SecurityGroup, Port, FloatingIp, Plan, PlanError, validate,
}
use dizzy.Churn.Graph.{Node, no_node}

pub data Built : Type 0 where
  built : List Node → Built
  invalid_plan : PlanError → Built

abbrev pub make_node : String → String → List String → Node
make_node key kind parents = record no_node { key = key; kind = kind; parents = parents }

abbrev pub non_empty : String → List String
non_empty ref = if has ref then ref ∷ [] else []

-- The references not in `seen`, each once and in order.
abbrev pub dedup_from : List String → List String → List String
dedup_from seen [] = []
dedup_from seen (r ∷ refs) =
    let skip = dedup_from seen refs in
    let keep = dedup_from (r ∷ seen) refs in if knows seen r then skip else r ∷ keep

abbrev pub dedup : List String → List String
dedup refs = dedup_from [] refs

abbrev pub address_scope_node : AddressScope → Node
address_scope_node as_ = make_node as_.name "address-scope" []

abbrev pub subnet_pool_node : SubnetPool → Node
subnet_pool_node sp = make_node sp.name "subnet-pool" (non_empty sp.address_scope)

abbrev pub network_node : Network → Node
network_node nw = make_node nw.name "network" []

abbrev pub router_node : Router → Node
router_node r = make_node r.name "router" []

abbrev pub security_group_node : SecurityGroup → Node
security_group_node sg = make_node sg.name "security-group" []

abbrev pub subnet_node : Subnet → Node
subnet_node s = make_node s.name "subnet" (s.network ∷ non_empty s.subnet_pool)

abbrev pub rule_key : String → ℕ → String
rule_key group j = str_append "rule:" (str_append group (str_append ":" (decimal j)))

abbrev pub rule_nodes : String → ℕ → List SecurityGroupRule → List Node
rule_nodes group j [] = []
rule_nodes group j (rule ∷ rules) =
    make_node (rule_key group j) "security-group-rule" (dedup (group ∷ non_empty rule.remote_group))
    ∷ rule_nodes group (suc j) rules

abbrev pub group_rule_nodes : List SecurityGroup → List Node
group_rule_nodes [] = []
group_rule_nodes (sg ∷ sgs) = rule_nodes sg.name 0 sg.rules ++ group_rule_nodes sgs

abbrev pub port_node : Port → Node
port_node pt =
    make_node pt.name "port"
      (dedup (pt.network ∷ map (λ fip. fip.subnet) pt.fixed_ips ++ pt.security_groups))

abbrev pub interface_node : RouterInterface → Node
interface_node ri =
    make_node ri.name "router-interface"
      (ri.router ∷ (if has ri.subnet then ri.subnet else ri.port) ∷ [])

abbrev pub floating_ip_node : FloatingIp → Node
floating_ip_node fip = make_node fip.name "floating-ip" (non_empty fip.port)

-- Without an external network there are no floating IPs.
abbrev pub floating_ip_nodes : String → List FloatingIp → List Node
floating_ip_nodes external fips = if has external then map floating_ip_node fips else []

abbrev pub plan_nodes : Plan → String → List Node
plan_nodes p external =
    map address_scope_node p.address_scopes
    ++ map subnet_pool_node p.subnet_pools
    ++ map network_node p.networks
    ++ map router_node p.routers
    ++ map security_group_node p.security_groups
    ++ map subnet_node p.subnets
    ++ group_rule_nodes p.security_groups
    ++ map port_node p.ports
    ++ map interface_node p.router_interfaces
    ++ floating_ip_nodes external p.floating_ips

unfoldable pub build : Plan → String → Built
build p external = elim (validate p) [
  | invalid e ↦ invalid_plan e
  | valid ↦ built (plan_nodes p external)
]
