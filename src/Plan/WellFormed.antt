-- ===== src/Plan/WellFormed.antt =====
-- What `Validate` of internal/plan/plan.go establishes: the references resolve, and no subnet or
-- port is attached to two router interfaces.
use dizzy.Prelude.{
  ◌≡◌, ◌≢◌, ◌↔◌, ◌⊎◌, inl, inr, refl, true, false, if◌then◌else◌, String, List, [], ◌∷◌, map, valid,
  each, >>-valid, each-valid, All, Resolves, refuse_optional, refuse_unknown, has, knows, In, Fresh,
  named, has_iff, has-not, knows_iff, knows-not, arith, Bool-cases,
}
use dizzy.Plan.{
  SubnetPool, Subnet, RouterInterface, SecurityGroup, Port, FloatingIp, Plan, network_names,
  subnet_pool_names, address_scope_names, router_names, subnet_names, security_group_names,
  port_names, check_subnet_pool, check_subnet, check_interface, check_interfaces, check_rule,
  check_security_group, check_fixed_ip, check_port_group, check_port, check_floating_ip, validate,
}

abbrev pub SubnetResolves : Plan → Subnet → Type 0
SubnetResolves p s = In s.network (network_names p) × Resolves (subnet_pool_names p) s.subnet_pool

-- An interface names a router of the plan and exactly one of a subnet and a port, which resolves.
abbrev pub InterfaceResolves : Plan → RouterInterface → Type 0
InterfaceResolves p ri =
    In ri.router (router_names p)
    × (((ri.subnet ≢ "") × (ri.port ≡ "") × In ri.subnet (subnet_names p))
        ⊎ ((ri.subnet ≡ "") × (ri.port ≢ "") × In ri.port (port_names p)))

abbrev pub PortResolves : Plan → Port → Type 0
PortResolves p port =
    In port.network (network_names p)
    × All (λ fip. In fip.subnet (subnet_names p)) port.fixed_ips
    × All (λ sg. In sg (security_group_names p)) port.security_groups

pub record WellFormed (p : Plan) : Type 0 where
  pub subnet_pools : All (λ sp. Resolves (address_scope_names p) sp.address_scope) p.subnet_pools
  pub subnets : All (SubnetResolves p) p.subnets
  pub interfaces : All (InterfaceResolves p) p.router_interfaces
  pub one_router : Fresh [] (named (map (λ ri. ri.subnet) p.router_interfaces))
  pub one_port : Fresh [] (named (map (λ ri. ri.port) p.router_interfaces))
  pub rules :
      All
        (λ sg. All (λ rule. Resolves (security_group_names p) rule.remote_group) sg.rules)
        p.security_groups
  pub ports : All (PortResolves p) p.ports
  pub floating_ips : All (λ fip. Resolves (port_names p) fip.port) p.floating_ips

-- The tests of an interface that passes.
abbrev Passes : Plan → List String → List String → RouterInterface → Type 0
Passes p ss ps ri =
    (knows (router_names p) ri.router ≡ true)
    × (((has ri.subnet ≡ true)
          × (has ri.port ≡ false)
          × (knows (subnet_names p) ri.subnet ≡ true)
          × (knows ss ri.subnet ≡ false))
        ⊎ ((has ri.subnet ≡ false)
            × (has ri.port ≡ true)
            × (knows (port_names p) ri.port ≡ true)
            × (knows ps ri.port ≡ false)))

valid→Passes :
    (p : Plan) (ss ps : List String) (ri : RouterInterface)
    → check_interface p ss ps ri ≡ valid
    → Passes p ss ps ri
unfolding check_interface
valid→Passes p ss ps ri h = ground arith

Passes→valid :
    (p : Plan) (ss ps : List String) (ri : RouterInterface)
    → Passes p ss ps ri
    → check_interface p ss ps ri ≡ valid
unfolding check_interface
Passes→valid p ss ps ri h = ground arith

Passes→resolves :
    (p : Plan) (ss ps : List String) (ri : RouterInterface)
    → Passes p ss ps ri
    → InterfaceResolves p ri
      × (ri.subnet ≢ "" → ¬ In ri.subnet ss)
      × (ri.port ≢ "" → ¬ In ri.port ps)
Passes→resolves p ss ps ri (r, inl (a, b, c, d)) = (
  ((knows_iff _ _).0 r, inl ((has_iff _).0 a, (has-not _).0 b, (knows_iff _ _).0 c)),
  λ _. (knows-not _ _).0 d,
  λ n. absurd (n ((has-not _).0 b)),
)
Passes→resolves p ss ps ri (r, inr (a, b, c, d)) = (
  ((knows_iff _ _).0 r, inr ((has-not _).0 a, (has_iff _).0 b, (knows_iff _ _).0 c)),
  λ n. absurd (n ((has-not _).0 a)),
  λ _. (knows-not _ _).0 d,
)

resolves→Passes :
    (p : Plan) (ss ps : List String) (ri : RouterInterface)
    → InterfaceResolves p ri
    → (ri.subnet ≢ "" → ¬ In ri.subnet ss)
    → (ri.port ≢ "" → ¬ In ri.port ps)
    → Passes p ss ps ri
resolves→Passes p ss ps ri (r, inl (a, b, c)) s t = (
  (knows_iff _ _).1 r,
  inl ((has_iff _).1 a, (has-not _).1 b, (knows_iff _ _).1 c, (knows-not _ _).1 (s a)),
)
resolves→Passes p ss ps ri (r, inr (a, b, c)) s t = (
  (knows_iff _ _).1 r,
  inr ((has-not _).1 a, (has_iff _).1 b, (knows_iff _ _).1 c, (knows-not _ _).1 (t b)),
)

-- Fresh names of a list with one more, set or not.
Fresh-named :
    (s : String) (seen rest : List String)
    → Fresh seen (named (s ∷ rest))
      ↔ ((s ≢ "" → ¬ In s seen) × Fresh (if has s then s ∷ seen else seen) (named rest))
Fresh-named s seen rest = elim (Bool-cases (has s)) [
  | inl e ↦ rw e (λ f. (λ _. f.0, f.1), λ f. (f.0 ((has_iff s).0 e), f.1))
  | inr e ↦ rw e (λ f. (λ n. absurd (n ((has-not s).0 e)), f), λ f. f.1)
]

abbrev InterfacesFit : Plan → List String → List String → List RouterInterface → Type 0
InterfacesFit p ss ps ris =
    All (InterfaceResolves p) ris
    × Fresh ss (named (map (λ ri. ri.subnet) ris))
    × Fresh ps (named (map (λ ri. ri.port) ris))

interfaces→fit :
    (p : Plan) (ss ps : List String) (ris : List RouterInterface)
    → check_interfaces p ss ps ris ≡ valid
    → InterfacesFit p ss ps ris
unfolding check_interfaces
interfaces→fit p ss ps [] h = (tt, tt, tt)
interfaces→fit p ss ps (ri ∷ ris) h =
    let parts = (>>-valid (check_interface p ss ps ri) _).0 h in
    let one = Passes→resolves p ss ps ri (valid→Passes p ss ps ri parts.0) in
    let rest =
      interfaces→fit p (if has ri.subnet then ri.subnet ∷ ss else ss)
        (if has ri.port then ri.port ∷ ps else ps) ris parts.1 in
    (
      (one.0, rest.0),
      (Fresh-named ri.subnet ss (map (λ ri. ri.subnet) ris)).1 (one.1, rest.1),
      (Fresh-named ri.port ps (map (λ ri. ri.port) ris)).1 (one.2, rest.2),
    )

fit→interfaces :
    (p : Plan) (ss ps : List String) (ris : List RouterInterface)
    → InterfacesFit p ss ps ris
    → check_interfaces p ss ps ris ≡ valid
unfolding check_interfaces
fit→interfaces p ss ps [] h = refl
fit→interfaces p ss ps (ri ∷ ris) (a, f, g) =
    let f' = (Fresh-named ri.subnet ss (map (λ ri. ri.subnet) ris)).0 f in
    let g' = (Fresh-named ri.port ps (map (λ ri. ri.port) ris)).0 g in
    (>>-valid (check_interface p ss ps ri) _).1 (
      Passes→valid p ss ps ri (resolves→Passes p ss ps ri a.0 f'.0 g'.0),
      fit→interfaces p (if has ri.subnet then ri.subnet ∷ ss else ss)
          (if has ri.port then ri.port ∷ ps else ps) ris (a.1, f'.1, g'.1),
    )

subnet_pool_valid :
    (p : Plan) (sp : SubnetPool)
    → (check_subnet_pool p sp ≡ valid) ↔ Resolves (address_scope_names p) sp.address_scope
unfolding check_subnet_pool
subnet_pool_valid p sp = refuse_optional (address_scope_names p) sp.address_scope _

subnet_valid : (p : Plan) (s : Subnet) → (check_subnet p s ≡ valid) ↔ SubnetResolves p s
unfolding check_subnet
subnet_valid p s =
    let both = >>-valid _ _ in
    let net = refuse_unknown (network_names p) s.network _ in
    let pool = refuse_optional (subnet_pool_names p) s.subnet_pool _ in
    (λ h. (net.0 (both.0 h).0, pool.0 (both.0 h).1), λ r. both.1 (net.1 r.0, pool.1 r.1))

rules_valid :
    (p : Plan) (sg : SecurityGroup)
    → (check_security_group p sg ≡ valid)
      ↔ All (λ rule. Resolves (security_group_names p) rule.remote_group) sg.rules
unfolding check_security_group check_rule
rules_valid p sg =
    each-valid _ _ (λ rule. refuse_optional (security_group_names p) rule.remote_group _) sg.rules

port_valid : (p : Plan) (port : Port) → (check_port p port ≡ valid) ↔ PortResolves p port
unfolding check_port check_fixed_ip check_port_group
port_valid p port =
    let outer = >>-valid _ _ in
    let inner = >>-valid _ _ in
    let net = refuse_unknown (network_names p) port.network _ in
    let ips = each-valid _ _ (λ fip. refuse_unknown (subnet_names p) fip.subnet _) port.fixed_ips in
    let sgs =
      each-valid _ _ (λ sg. refuse_unknown (security_group_names p) sg _) port.security_groups in
    (
      λ h. (net.0 (inner.0 (outer.0 h).0).0, ips.0 (inner.0 (outer.0 h).0).1, sgs.0 (outer.0 h).1),
      λ r. outer.1 (inner.1 (net.1 r.0, ips.1 r.1), sgs.1 r.2),
    )

floating_ip_valid :
    (p : Plan) (fip : FloatingIp)
    → (check_floating_ip p fip ≡ valid) ↔ Resolves (port_names p) fip.port
unfolding check_floating_ip
floating_ip_valid p fip = refuse_optional (port_names p) fip.port _

-- A plan passes `Validate` exactly when it is well formed: every reference of a subnet pool, subnet,
-- router interface, rule, port and floating IP resolves, each interface has exactly one of a subnet
-- and a port, and no subnet and no port is attached twice.
pub validate-WellFormed : (p : Plan) → (validate p ≡ valid) ↔ WellFormed p
unfolding validate
validate-WellFormed p =
    let pools = each-valid _ _ (subnet_pool_valid p) p.subnet_pools in
    let subnets = each-valid _ _ (subnet_valid p) p.subnets in
    let rules = each-valid _ _ (rules_valid p) p.security_groups in
    let ports = each-valid _ _ (port_valid p) p.ports in
    let fips = each-valid _ _ (floating_ip_valid p) p.floating_ips in
    let v1 =
      >>-valid (each (check_subnet_pool p) p.subnet_pools) (each (check_subnet p) p.subnets) in
    let v2 = >>-valid _ (check_interfaces p [] [] p.router_interfaces) in
    let v3 = >>-valid _ (each (check_security_group p) p.security_groups) in
    let v4 = >>-valid _ (each (check_port p) p.ports) in
    let v5 = >>-valid _ (each (check_floating_ip p) p.floating_ips) in
    (
      λ h.
          let e5 = v5.0 h in
          let e4 = v4.0 e5.0 in
          let e3 = v3.0 e4.0 in
          let e2 = v2.0 e3.0 in
          let e1 = v1.0 e2.0 in
          let fit = interfaces→fit p [] [] p.router_interfaces e2.1 in
          record {
            subnet_pools = pools.0 e1.0;
            subnets = subnets.0 e1.1;
            interfaces = fit.0;
            one_router = fit.1;
            one_port = fit.2;
            rules = rules.0 e3.1;
            ports = ports.0 e4.1;
            floating_ips = fips.0 e5.1;
          },
      λ w.
          let fit =
            fit→interfaces p [] [] p.router_interfaces (w.interfaces, w.one_router, w.one_port) in
          v5.1 (
            v4.1 (
              v3.1
                  (v2.1 (v1.1 (pools.1 w.subnet_pools, subnets.1 w.subnets), fit), rules.1 w.rules),
              ports.1 w.ports,
            ),
            fips.1 w.floating_ips,
          ),
    )
