-- ===== src/Executor/Apply/Whole.antt =====
-- What an `Apply` (internal/executor/executor.go) without an error has created.
use dizzy.Prelude.{
  ℕ, ◌≡◌, refl, sym, ap, subst, ◌∙◌, true, has, if◌then◌else◌, Bool-cases, inl, inr, none, some,
  List, [], ◌∷◌, ◌++◌, map, All, Option, String,
}
use dizzy.Plan.{
  Plan, AddressScope, SubnetPool, Network, Router, SecurityGroup, Subnet, SecurityGroupRule, Port,
  RouterInterface, FloatingIp,
}
use dizzy.Churn.State.{Resource}
use dizzy.Executor.Retry.{Errors}
use dizzy.Executor.Stage.{
  Service, Pool, RuleItem, rules_of, flatten_rules, append_created, provision,
}
use dizzy.Executor.Stage.Complete.{Identified, Fair, run_stage_complete}
use dizzy.Executor.Apply.{
  Request, create_address_scope, create_subnet_pool, create_network, create_router,
  create_security_group, create_subnet, create_security_group_rule, create_port,
  create_router_interface, create_floating_ip, Ids, Progress, Outcome, going, stopped,
  request_subnet_pool, request_subnet, request_rule, request_port, request_interface,
  request_floating_ip, register, conclude, stage, foundation, interior, apply,
}
use dizzy.Executor.Apply.Sound.{All-provisioned}

append_assoc : (xs ys zs : List Resource) → (xs ++ ys) ++ zs ≡ xs ++ (ys ++ zs)
append_assoc [] ys zs = refl
append_assoc (x ∷ xs) ys zs = ap (λ ws. x ∷ ws) (append_assoc xs ys zs)

append_nil : (xs : List Resource) → xs ++ [] ≡ xs
append_nil [] = refl
append_nil (x ∷ xs) = ap (λ ws. x ∷ ws) (append_nil xs)

map-append : {A B : Type 0} (f : A → B) (xs ys : List A) → map f (xs ++ ys) ≡ map f xs ++ map f ys
map-append f [] ys = refl
map-append f (x ∷ xs) ys = ap (λ ws. f x ∷ ws) (map-append f xs ys)

append_created_whole :
    (rs dst : List Resource) → All (λ r. has r.id ≡ true) rs → append_created dst rs ≡ dst ++ rs
append_created_whole [] dst a = sym (append_nil dst)
append_created_whole (r ∷ rs) dst a =
    rw a.0 (append_created_whole rs (dst ++ r ∷ []) a.1 ∙ append_assoc dst (r ∷ []) rs)

-- A resource of a plan.
pub data Subject : Type 0 where
  address_scope : AddressScope → Subject
  subnet_pool : SubnetPool → Subject
  network : Network → Subject
  router : Router → Subject
  security_group : SecurityGroup → Subject
  subnet : Subnet → Subject
  rule : SecurityGroupRule → Subject
  port : Port → Subject
  interface : RouterInterface → Subject
  floating_ip : FloatingIp → Subject

-- What a request is for.
abbrev pub subject : Request → Subject
subject (create_address_scope x) = address_scope x
subject (create_subnet_pool x _) = subnet_pool x
subject (create_network x) = network x
subject (create_router x _) = router x
subject (create_security_group x) = security_group x
subject (create_subnet x _ _) = subnet x
subject (create_security_group_rule x _ _) = rule x
subject (create_port x _ _ _) = port x
subject (create_router_interface x _ _ _) = interface x
subject (create_floating_ip x _ _) = floating_ip x

abbrev pub group_rules : List SecurityGroup → List Subject
group_rules [] = []
group_rules (sg ∷ sgs) = map rule sg.rules ++ group_rules sgs

-- The resources of a plan, stage by stage.
abbrev foundation_resources : Plan → List Subject
foundation_resources p =
    (((map address_scope p.address_scopes ++ map subnet_pool p.subnet_pools)
        ++ map network p.networks)
      ++ map router p.routers)
    ++ map security_group p.security_groups

abbrev interior_resources : Plan → List Subject
interior_resources p =
    (((foundation_resources p ++ map subnet p.subnets) ++ group_rules p.security_groups)
      ++ map port p.ports)
    ++ map interface p.router_interfaces

abbrev pub planned : Plan → String → List Subject
planned p external =
    if has external
    then interior_resources p ++ map floating_ip p.floating_ips
    else interior_resources p

subject-map :
    {A : Type 0} (f : A → Request) (g : A → Subject)
    → ((x : A) → subject (f x) ≡ g x)
    → (xs : List A) → map subject (map f xs) ≡ map g xs
subject-map f g h [] = refl
subject-map f g h (x ∷ xs) = cc (h x, subject-map f g h xs)

subject-rules_of :
    (ids : Ids) (name : String) (rs : List SecurityGroupRule) (rest : List RuleItem)
    → map subject (map (request_rule ids) (rules_of name rs rest))
      ≡ map rule rs ++ map subject (map (request_rule ids) rest)
subject-rules_of ids name [] rest = refl
subject-rules_of ids name (r ∷ rs) rest = ap (λ xs. rule r ∷ xs) (subject-rules_of ids name rs rest)

subject-flatten_rules :
    (ids : Ids) (sgs : List SecurityGroup)
    → map subject (map (request_rule ids) (flatten_rules sgs)) ≡ group_rules sgs
unfolding flatten_rules
subject-flatten_rules ids [] = refl
subject-flatten_rules ids (sg ∷ sgs) =
    subject-rules_of ids sg.name sg.rules (flatten_rules sgs)
    ∙ ap (λ xs. map rule sg.rules ++ xs) (subject-flatten_rules ids sgs)

module _ (errors : Errors) (service : Service Request errors.E) where
  -- One resource for each request, in order, and a request for each of these resources, in order.
  abbrev pub Created : List Subject → Progress → Type 0
  Created n p =
      (p.created ≡ map (λ q. (provision errors service q).0) p.requests)
      × (map subject p.requests ≡ n)

  abbrev Tally : List Subject → Outcome errors.E → Type 0
  Tally n (going p) = Created n p
  Tally n (stopped e p) = Unit

  module _ (pools : ℕ → List Request → Pool errors.E) (identified : Identified errors service)
      (fair : (k : ℕ) (qs : List Request) → Fair errors service (pools k qs) qs) where
    conclude-Tally :
        (n : List Subject) (names : List String) (out : List Resource × Option errors.E)
        (p : Progress)
        → (out.1 ≡ none
            → Created n (record p {
              created = append_created p.created out.0;
              ids = register names out.0 p.ids;
            }))
        → Tally n (conclude errors service pools names out p)
    conclude-Tally n names (res, some e) p h = tt
    conclude-Tally n names (res, none) p h = h refl

    grown :
        (m n : List Subject) (p : Progress) (qs reached : List Request) (res : List Resource)
        → map subject qs ≡ m
        → Created n p
        → res ≡ map (λ q. (provision errors service q).0) qs
        → All (λ q. (provision errors service q).1 ≡ none) qs
        → reached ≡ qs
        → Created
            (n ++ m)
            (record p { created = append_created p.created res; requests = p.requests ++ reached })
    grown m n p qs reached res size (made, count) same fine all =
        let found = All-provisioned errors service pools identified fair qs fine in
        rw (same, all)
          (
            append_created_whole _ p.created found
                ∙ ap (λ rs. rs ++ map (λ q. (provision errors service q).0) qs) made
                ∙ sym (map-append (λ q. (provision errors service q).0) p.requests qs),
            map-append subject p.requests qs ∙ cc (size, count),
          )

    stage-Tally :
        (k : ℕ) (m n : List Subject) (names : List String) (qs : Ids → List Request)
        (o : Outcome errors.E)
        → ((ids : Ids) → map subject (qs ids) ≡ m)
        → Tally n o
        → Tally (n ++ m) (stage errors service pools k names qs o)
    unfolding stage
    stage-Tally k m n names qs (stopped e p) size t = tt
    stage-Tally k m n names qs (going p) size t = conclude-Tally (n ++ m) names _ _ λ h.
        let ((same, fine), all) =
          run_stage_complete errors service (pools k (qs p.ids)) (qs p.ids) (fair k (qs p.ids)) h in
        grown m n p (qs p.ids) _ _ (size p.ids) t same fine all

    foundation-Tally :
        (p : Plan) (external : String)
        → Tally (foundation_resources p) (foundation errors service pools p external)
    unfolding foundation
    foundation-Tally p external =
        let t0 =
          stage-Tally 0 (map address_scope p.address_scopes) [] _ _ _
            (λ ids. subject-map create_address_scope address_scope (λ x. refl) p.address_scopes)
            (refl, refl) in
        let t1 =
          stage-Tally 1 (map subnet_pool p.subnet_pools) _ _ _ _
            (λ ids. subject-map (request_subnet_pool ids) subnet_pool (λ x. refl) p.subnet_pools)
            t0 in
        let t2 =
          stage-Tally 2 (map network p.networks) _ _ _ _
            (λ ids. subject-map create_network network (λ x. refl) p.networks) t1 in
        let t3 =
          stage-Tally 3 (map router p.routers) _ _ _ _
            (λ ids. subject-map (λ r. create_router r external) router (λ x. refl) p.routers) t2 in
        stage-Tally 4 (map security_group p.security_groups) _ _ _ _
          (λ ids. subject-map create_security_group security_group (λ x. refl) p.security_groups) t3

    interior-Tally :
        (p : Plan) (external : String)
        → Tally (interior_resources p) (interior errors service pools p external)
    unfolding interior
    interior-Tally p external =
        let t5 =
          stage-Tally 5 (map subnet p.subnets) _ _ _ _
            (λ ids. subject-map (request_subnet ids) subnet (λ x. refl) p.subnets)
            (foundation-Tally p external) in
        let t6 =
          stage-Tally 6 (group_rules p.security_groups) _ _ _ _
            (λ ids. subject-flatten_rules ids p.security_groups) t5 in
        let t7 =
          stage-Tally 7 (map port p.ports) _ _ _ _
            (λ ids. subject-map (request_port ids) port (λ x. refl) p.ports) t6 in
        stage-Tally 8 (map interface p.router_interfaces) _ _ _ _
          (λ ids. subject-map (request_interface ids) interface (λ x. refl) p.router_interfaces) t7

    apply-Tally :
        (p : Plan) (external : String)
        → Tally (planned p external) (apply errors service pools p external)
    unfolding apply
    apply-Tally p external = elim (Bool-cases (has external)) [
      | inl e ↦ rw e (
          stage-Tally 9 (map floating_ip p.floating_ips) _ _ _ _
            (λ ids.
              subject-map (request_floating_ip external ids) floating_ip (λ x. refl) p.floating_ips)
            (interior-Tally p external))
      | inr e ↦ rw e (interior-Tally p external)
    ]

-- An apply that ends without an error has made one request for each resource of the plan, stage by
-- stage and in the plan's order: each rule of each security group is among them, and each floating
-- IP where there is an external network. The result lists the created resources, one for each
-- request and in the requests' order. The cloud gives each created resource an id, and a stage
-- leaves items out only after an error or a cancellation.
pub apply-Created :
    (errors : Errors) (service : Service Request errors.E)
    (pools : ℕ → List Request → Pool errors.E)
    → Identified errors service
    → ((k : ℕ) (qs : List Request) → Fair errors service (pools k qs) qs)
    → (p : Plan) (external : String) (q : Progress)
    → apply errors service pools p external ≡ going q
    → Created errors service (planned p external) q
apply-Created errors service pools identified fair p external q e =
    subst (λ (o : Outcome errors.E). Tally errors service (planned p external) o) e
      (apply-Tally errors service pools identified fair p external)
