-- ===== src/Executor/Apply.antt =====
-- `Apply` (internal/executor/executor.go): the stages of a plan in dependency order, each of which
-- resolves names through the ids of the stages before it. The log of the requests that reached a
-- worker is kept beside the result.
pub mod Sound
pub mod Resolved
pub mod Ordered
pub mod Whole
use dizzy.Prelude.{
  ℕ, Bool, true, false, not, if◌then◌else◌, String, str_eq, has, Option, none, some, List, [], ◌∷◌,
  ◌++◌, map,
}
use dizzy.Plan.{
  Plan, AddressScope, SubnetPool, Network, Subnet, Router, RouterInterface, SecurityGroup,
  SecurityGroupRule, Port, FloatingIp,
}
use dizzy.Churn.State.{Resource}
use dizzy.Executor.Retry.{Errors}
use dizzy.Executor.Stage.{
  Service, Pool, RuleItem, flatten_rules, append_created, run_stage, handed_out,
}

-- A call of the `Neutron` interface, with the ids it is given.
pub data Request : Type 0 where
  create_address_scope : AddressScope → Request
  create_subnet_pool : SubnetPool → String → Request
  create_network : Network → Request
  create_router : Router → String → Request
  create_security_group : SecurityGroup → Request
  create_subnet : Subnet → String → String → Request
  create_security_group_rule : SecurityGroupRule → String → String → Request
  create_port : Port → String → List (String × String) → List String → Request
  create_router_interface : RouterInterface → String → String → String → Request
  create_floating_ip : FloatingIp → String → String → Request

-- `ids`, with the latest entry first; a missing key reads as the empty string.
abbrev pub Ids : Type 0
Ids = List (String × String)

abbrev pub lookup : Ids → String → String
lookup [] name = ""
lookup ((n, id) ∷ ids) name = if str_eq n name then id else lookup ids name

unfoldable pub register : List String → List Resource → Ids → Ids
register [] rs ids = ids
register (n ∷ ns) [] ids = ids
register (n ∷ ns) (r ∷ rs) ids = register ns rs ((n, r.id) ∷ ids)

pub record Progress : Type 0 where
  pub ids : Ids
  pub created : List Resource
  pub requests : List Request

pub data Outcome (E : Type 0) : Type 0 where
  going : Progress → Outcome E
  stopped : E → Progress → Outcome E

abbrev pub request_subnet_pool : Ids → SubnetPool → Request
request_subnet_pool ids sp = create_subnet_pool sp (lookup ids sp.address_scope)

abbrev pub request_subnet : Ids → Subnet → Request
request_subnet ids s = create_subnet s (lookup ids s.network) (lookup ids s.subnet_pool)

abbrev pub request_rule : Ids → RuleItem → Request
request_rule ids it =
    create_security_group_rule it.rule (lookup ids it.sg_name)
      (if has it.rule.remote_group then lookup ids it.rule.remote_group else "")

abbrev pub request_port : Ids → Port → Request
request_port ids port =
    create_port port (lookup ids port.network)
      (map (λ fip. (fip.subnet, lookup ids fip.subnet)) port.fixed_ips)
      (map (λ sg. lookup ids sg) port.security_groups)

abbrev pub request_interface : Ids → RouterInterface → Request
request_interface ids ri =
    create_router_interface ri (lookup ids ri.router) (lookup ids ri.subnet) (lookup ids ri.port)

abbrev pub request_floating_ip : String → Ids → FloatingIp → Request
request_floating_ip external ids fip = create_floating_ip fip external (lookup ids fip.port)

module _ (errors : Errors) (service : Service Request errors.E)
    (pools : ℕ → List Request → Pool errors.E) where
  abbrev pub conclude : List String → List Resource × Option errors.E → Progress → Outcome errors.E
  conclude names (res, some e) p = stopped e (record p { created = append_created p.created res })
  conclude names (res, none) p =
      going (record p { created = append_created p.created res; ids = register names res p.ids })

  -- Stage `k`: its requests, and the names that its resources are registered under.
  unfoldable pub stage :
      ℕ → List String → (Ids → List Request) → Outcome errors.E → Outcome errors.E
  stage k names qs (stopped e p) = stopped e p
  stage k names qs (going p) =
      conclude names (run_stage errors service (pools k (qs p.ids)) (qs p.ids)) (record p {
        requests = p.requests ++ handed_out errors service (pools k (qs p.ids)) (qs p.ids);
      })

  -- The stages up to the security groups.
  unfoldable pub foundation : Plan → String → Outcome errors.E
  foundation p external =
      let o = going (record { ids = []; created = []; requests = [] }) in
      let o =
        stage 0 (map (λ a. a.name) p.address_scopes)
          (λ ids. map create_address_scope p.address_scopes) o in
      let o =
        stage 1 (map (λ sp. sp.name) p.subnet_pools)
          (λ ids. map (request_subnet_pool ids) p.subnet_pools) o in
      let o = stage 2 (map (λ n. n.name) p.networks) (λ ids. map create_network p.networks) o in
      let o =
        stage 3 (map (λ r. r.name) p.routers) (λ ids. map (λ r. create_router r external) p.routers)
          o in
      stage 4 (map (λ sg. sg.name) p.security_groups)
        (λ ids. map create_security_group p.security_groups) o

  -- The stages up to the router interfaces.
  unfoldable pub interior : Plan → String → Outcome errors.E
  interior p external =
      let o = foundation p external in
      let o = stage 5 (map (λ s. s.name) p.subnets) (λ ids. map (request_subnet ids) p.subnets) o in
      let o = stage 6 [] (λ ids. map (request_rule ids) (flatten_rules p.security_groups)) o in
      let o = stage 7 (map (λ pt. pt.name) p.ports) (λ ids. map (request_port ids) p.ports) o in
      stage 8 [] (λ ids. map (request_interface ids) p.router_interfaces) o

  unfoldable pub apply : Plan → String → Outcome errors.E
  apply p external =
      let o = interior p external in
      if has external
      then stage 9 [] (λ ids. map (request_floating_ip external ids) p.floating_ips) o
      else o

abbrev pub progress : {E : Type 0} → Outcome E → Progress
progress (going p) = p
progress (stopped e p) = p

abbrev pub sent : {E : Type 0} → Outcome E → List Request
sent o = (progress o).requests
