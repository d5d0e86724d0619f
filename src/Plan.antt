-- ===== src/Plan.antt =====
-- The plan of a Neutron run (internal/plan/plan.go): the enumerated resources, and the check that
-- every reference among them resolves.
pub mod WellFormed
use dizzy.Prelude.{
  ℕ, suc, Bool, true, false, not, ◌&&◌, ◌||◌, if◌then◌else◌, String, str_eq, List, [], ◌∷◌, map, ℤ,
  length, select, Verdict, valid, invalid, ◌>>◌, refuse_if, each, has, knows,
}

pub record AddressScope : Type 0 where
  pub name : String
  pub ip_version : ℕ

pub record SubnetPool : Type 0 where
  pub name : String
  pub ip_version : ℕ
  pub prefixes : List String
  pub default_prefix_len : ℕ
  pub address_scope : String

pub record Network : Type 0 where
  pub name : String

pub record Subnet : Type 0 where
  pub name : String
  pub network : String
  pub ip_version : ℕ
  pub cidr : String
  pub subnet_pool : String
  pub prefix_len : ℕ
  pub ipv6_address_mode : String
  pub ipv6_ra_mode : String
  pub disable_dhcp : Bool

pub record Router : Type 0 where
  pub name : String
  pub external_gateway : Bool

pub record RouterInterface : Type 0 where
  pub name : String
  pub router : String
  pub subnet : String
  pub port : String

pub record SecurityGroupRule : Type 0 where
  pub direction : String
  pub ether_type : String
  pub protocol : String
  pub port_range_min : ℕ
  pub port_range_max : ℕ
  pub remote_ip_prefix : String
  pub remote_group : String

pub record SecurityGroup : Type 0 where
  pub name : String
  pub rules : List SecurityGroupRule

pub record FixedIp : Type 0 where
  pub subnet : String
  pub ip_address : String

pub record Port : Type 0 where
  pub name : String
  pub network : String
  pub fixed_ips : List FixedIp
  pub security_groups : List String

pub record FloatingIp : Type 0 where
  pub name : String
  pub port : String

pub record Plan : Type 0 where
  pub scenario : String
  pub seed : ℤ
  pub address_scopes : List AddressScope
  pub subnet_pools : List SubnetPool
  pub networks : List Network
  pub subnets : List Subnet
  pub routers : List Router
  pub router_interfaces : List RouterInterface
  pub security_groups : List SecurityGroup
  pub ports : List Port
  pub floating_ips : List FloatingIp

-- The errors of `Validate`, by the names that their texts quote.
pub data PlanError : Type 0 where
  unknown_address_scope : String → String → PlanError
  unknown_network : String → String → PlanError
  unknown_subnet_pool : String → String → PlanError
  unknown_router : String → String → PlanError
  subnet_and_port : String → PlanError
  unknown_subnet : String → String → PlanError
  subnet_attached_twice : String → PlanError
  unknown_port : String → String → PlanError
  port_attached_twice : String → PlanError
  neither_subnet_nor_port : String → PlanError
  unknown_remote_group : String → String → PlanError
  unknown_security_group : String → String → PlanError

abbrev pub network_names : Plan → List String
network_names p = map (λ n. n.name) p.networks

abbrev pub subnet_pool_names : Plan → List String
subnet_pool_names p = map (λ sp. sp.name) p.subnet_pools

abbrev pub address_scope_names : Plan → List String
address_scope_names p = map (λ as_. as_.name) p.address_scopes

abbrev pub router_names : Plan → List String
router_names p = map (λ r. r.name) p.routers

abbrev pub subnet_names : Plan → List String
subnet_names p = map (λ s. s.name) p.subnets

abbrev pub security_group_names : Plan → List String
security_group_names p = map (λ sg. sg.name) p.security_groups

abbrev pub port_names : Plan → List String
port_names p = map (λ pt. pt.name) p.ports

abbrev Check : Type 0
Check = Verdict PlanError

check_subnet_pool : Plan → SubnetPool → Check
check_subnet_pool p sp =
    refuse_if (has sp.address_scope && not (knows (address_scope_names p) sp.address_scope))
      (unknown_address_scope sp.name sp.address_scope)

check_subnet : Plan → Subnet → Check
check_subnet p s =
    refuse_if (not (knows (network_names p) s.network)) (unknown_network s.name s.network)
    >> refuse_if (has s.subnet_pool && not (knows (subnet_pool_names p) s.subnet_pool))
        (unknown_subnet_pool s.name s.subnet_pool)

-- The `switch` on a router interface; the lists hold what earlier interfaces attached.
check_interface : Plan → List String → List String → RouterInterface → Check
check_interface p attached_subnet attached_port ri =
    refuse_if (not (knows (router_names p) ri.router)) (unknown_router ri.name ri.router)
    >> (if has ri.subnet && has ri.port
        then invalid (subnet_and_port ri.name)
        else (if has ri.subnet
            then refuse_if (not (knows (subnet_names p) ri.subnet))
                (unknown_subnet ri.name ri.subnet)
              >> refuse_if (knows attached_subnet ri.subnet) (subnet_attached_twice ri.subnet)
            else (if has ri.port
                then refuse_if (not (knows (port_names p) ri.port)) (unknown_port ri.name ri.port)
                  >> refuse_if (knows attached_port ri.port) (port_attached_twice ri.port)
                else invalid (neither_subnet_nor_port ri.name))))

-- The maps gain the interface's subnet or port; one of the two is empty where the check passed.
check_interfaces : Plan → List String → List String → List RouterInterface → Check
check_interfaces p attached_subnet attached_port [] = valid
check_interfaces p attached_subnet attached_port (ri ∷ ris) =
    check_interface p attached_subnet attached_port ri
    >> check_interfaces p (if has ri.subnet then ri.subnet ∷ attached_subnet else attached_subnet)
        (if has ri.port then ri.port ∷ attached_port else attached_port) ris

check_rule : Plan → SecurityGroup → SecurityGroupRule → Check
check_rule p sg rule =
    refuse_if (has rule.remote_group && not (knows (security_group_names p) rule.remote_group))
      (unknown_remote_group sg.name rule.remote_group)

check_security_group : Plan → SecurityGroup → Check
check_security_group p sg = each (check_rule p sg) sg.rules

check_fixed_ip : Plan → Port → FixedIp → Check
check_fixed_ip p port fip =
    refuse_if (not (knows (subnet_names p) fip.subnet)) (unknown_subnet port.name fip.subnet)

check_port_group : Plan → Port → String → Check
check_port_group p port sg =
    refuse_if (not (knows (security_group_names p) sg)) (unknown_security_group port.name sg)

check_port : Plan → Port → Check
check_port p port =
    refuse_if (not (knows (network_names p) port.network)) (unknown_network port.name port.network)
    >> each (check_fixed_ip p port) port.fixed_ips
    >> each (check_port_group p port) port.security_groups

check_floating_ip : Plan → FloatingIp → Check
check_floating_ip p fip =
    refuse_if (has fip.port && not (knows (port_names p) fip.port)) (unknown_port fip.name fip.port)

unfoldable pub validate : Plan → Check
unfolding check_subnet_pool check_subnet check_interface check_interfaces check_rule
    check_security_group check_fixed_ip check_port_group check_port check_floating_ip
validate p =
    each (check_subnet_pool p) p.subnet_pools
    >> each (check_subnet p) p.subnets
    >> check_interfaces p [] [] p.router_interfaces
    >> each (check_security_group p) p.security_groups
    >> each (check_port p) p.ports
    >> each (check_floating_ip p) p.floating_ips

pub routers_with_external_gateway : Plan → ℕ
routers_with_external_gateway p = length (select (λ r. r.external_gateway) p.routers)
