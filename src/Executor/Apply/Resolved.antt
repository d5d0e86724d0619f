-- ===== src/Executor/Apply/Resolved.antt =====
-- Every reference in a request of `Apply` (internal/executor/executor.go) is given as an id.
use dizzy.Prelude.{
  Resolves, Resolves, ◌≡◌, inl, inr, refl, true, List, [], ◌∷◌, map, All, All-map, String, has,
  has_iff, In,
}
use dizzy.Plan.{
  Plan, SubnetPool, Subnet, RouterInterface, SecurityGroup, SecurityGroupRule, Port, FloatingIp,
  network_names, subnet_pool_names, address_scope_names, router_names, subnet_names,
  security_group_names, port_names,
}
use dizzy.Plan.WellFormed.{SubnetResolves, InterfaceResolves, PortResolves}
use dizzy.Executor.Stage.{RuleItem, rules_of, flatten_rules}
use dizzy.Executor.Apply.{
  Ids, lookup, request_subnet_pool, request_subnet, request_rule, request_port, request_interface,
  request_floating_ip,
}
use dizzy.Executor.Apply.Sound.{Set, Resolved, Registered}

-- The names of a list are registered.
abbrev pub Knows : Ids → List String → Type 0
Knows ids names = (n : String) → In n names → Registered ids n

Resolves-Set :
    (ids : Ids) (names : List String) (s : String)
    → Knows ids names
    → Resolves names s
    → Set s (lookup ids s)
Resolves-Set ids names s k (inl e) h = absurd ((has_iff s).0 h e)
Resolves-Set ids names s k (inr m) h = k s m

pub subnet_pools-Resolved :
    (p : Plan) (ids : Ids)
    → Knows ids (address_scope_names p)
    → (sps : List SubnetPool) → All (λ sp. Resolves (address_scope_names p) sp.address_scope) sps
    → All Resolved (map (request_subnet_pool ids) sps)
subnet_pools-Resolved p ids k =
    All-map _ Resolved (request_subnet_pool ids) (λ sp h. Resolves-Set ids _ sp.address_scope k h)

pub subnets-Resolved :
    (p : Plan) (ids : Ids)
    → Knows ids (network_names p)
    → Knows ids (subnet_pool_names p)
    → (ss : List Subnet) → All (SubnetResolves p) ss
    → All Resolved (map (request_subnet ids) ss)
subnets-Resolved p ids k l =
    All-map _ Resolved (request_subnet ids)
      (λ s h. (k s.network h.0, Resolves-Set ids _ s.subnet_pool l h.1))

pub interfaces-Resolved :
    (p : Plan) (ids : Ids)
    → Knows ids (router_names p)
    → Knows ids (subnet_names p)
    → Knows ids (port_names p)
    → (ris : List RouterInterface) → All (InterfaceResolves p) ris
    → All Resolved (map (request_interface ids) ris)
interfaces-Resolved p ids k l m = All-map _ Resolved (request_interface ids) (λ ri h. (
  k ri.router h.0,
  Resolves-Set ids _ ri.subnet l (elim h.1 [ inl x ↦ inr x.2 | inr x ↦ inl x.0 ]),
  Resolves-Set ids _ ri.port m (elim h.1 [ inl x ↦ inl x.1 | inr x ↦ inr x.2 ]),
))

pub ports-Resolved :
    (p : Plan) (ids : Ids)
    → Knows ids (network_names p)
    → Knows ids (subnet_names p)
    → Knows ids (security_group_names p)
    → (ps : List Port) → All (PortResolves p) ps
    → All Resolved (map (request_port ids) ps)
ports-Resolved p ids k l m = All-map _ Resolved (request_port ids) (λ pt h. (
  k pt.network h.0,
  All-map _ _ (λ fip. (fip.subnet, lookup ids fip.subnet)) (λ fip i. l fip.subnet i) pt.fixed_ips
      h.1,
  All-map _ _ (λ sg. lookup ids sg) (λ sg i. m sg i) pt.security_groups h.2,
))

pub floating_ips-Resolved :
    (p : Plan) (external : String) (ids : Ids)
    → has external ≡ true
    → Knows ids (port_names p)
    → (fs : List FloatingIp) → All (λ fip. Resolves (port_names p) fip.port) fs
    → All Resolved (map (request_floating_ip external ids) fs)
floating_ips-Resolved p external ids h k =
    All-map _ Resolved (request_floating_ip external ids)
      (λ fip r. (h, Resolves-Set ids _ fip.port k r))

-- A flattened rule stands in a group of the plan.
abbrev pub ItemResolves : List String → RuleItem → Type 0
ItemResolves names it = In it.sg_name names × Resolves names it.rule.remote_group

rules_of-ItemResolves :
    (names : List String) (name : String) (rs : List SecurityGroupRule) (rest : List RuleItem)
    → In name names
    → All (λ r. Resolves names r.remote_group) rs
    → All (ItemResolves names) rest
    → All (ItemResolves names) (rules_of name rs rest)
rules_of-ItemResolves names name [] rest i a b = b
rules_of-ItemResolves names name (r ∷ rs) rest i a b =
    ((i, a.0), rules_of-ItemResolves names name rs rest i a.1 b)

pub flatten_rules-ItemResolves :
    (names : List String) (sgs : List SecurityGroup)
    → ((n : String) → In n (map (λ sg. sg.name) sgs) → In n names)
    → All (λ sg. All (λ r. Resolves names r.remote_group) sg.rules) sgs
    → All (ItemResolves names) (flatten_rules sgs)
unfolding flatten_rules
flatten_rules-ItemResolves names [] sub a = tt
flatten_rules-ItemResolves names (sg ∷ sgs) sub a =
    rules_of-ItemResolves names sg.name sg.rules _ (sub sg.name (In.first sg.name refl)) a.0
      (flatten_rules-ItemResolves names sgs (λ n i. sub n (In.later i)) a.1)

pub rules-Resolved :
    (p : Plan) (ids : Ids)
    → Knows ids (security_group_names p)
    → (its : List RuleItem) → All (ItemResolves (security_group_names p)) its
    → All Resolved (map (request_rule ids) its)
rules-Resolved p ids k =
    All-map _ Resolved (request_rule ids)
      (λ it h. (k it.sg_name h.0, λ e. rw e (Resolves-Set ids _ it.rule.remote_group k h.1 e)))
