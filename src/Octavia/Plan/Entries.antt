-- ===== src/Octavia/Plan/Entries.antt =====
-- What the check of one entry of a plan establishes (internal/octavia/plan/plan.go).
use dizzy.Prelude.{
  ◌≡◌, ◌≢◌, refl, Bool, true, false, not, String, str_eq, eq_iff, Option-cases, none, some, List,
  [], ◌∷◌, map, some_of, ℤ, pos, negsuc, eq_ℤ_iff, valid, invalid, refuse_if, refuse_if-valid,
  >>-valid, All, knows, knows-not, refuse_unknown, arith, Bool-cases, inl, inr,
}
use dizzy.Octavia.Plan.{
  Network, LoadBalancer, Listener, Pool, HealthMonitor, Plan, Parsing, PlanError, claim_name,
  valid_port, network_names, load_balancer_names, listener_names, pool_names, check_load_balancer,
  check_listener, check_pool, check_health_monitor, parse_vip_cidr, check_network,
}
use dizzy.Octavia.Plan.Fits.{
  IsNew, IsPort, LoadBalancerFits, ListenerFits, PoolFits, MonitorFits, NetworkFits,
}

str_eq-not : (s t : String) → str_eq s t ≡ false → s ≢ t
str_eq-not s t h e = cc (h, (eq_iff s t).1 e)

pub claim_name-IsNew :
    (kind name : String) (seen : List String) → claim_name kind seen name ≡ valid → IsNew seen name
unfolding claim_name
claim_name-IsNew kind name seen h =
    let parts = (>>-valid (refuse_if (str_eq name "") _) _).0 h in
    (
      str_eq-not name "" ((refuse_if-valid (str_eq name "") _).0 parts.0),
      (knows-not seen name).0 ((refuse_if-valid (knows seen name) _).0 parts.1),
    )

pub valid_port-IsPort :
    (z : ℤ) (e : PlanError) → refuse_if (not (valid_port z)) e ≡ valid → IsPort z
unfolding valid_port
valid_port-IsPort (pos n) e h = (n, refl, ground arith, ground arith)
valid_port-IsPort (negsuc n) e h = cc h

pub none_of :
    {A : Type 0} (test : A → Bool) (Q : A → Type 0)
    → ((o : A) → Q o → test o ≡ true)
    → (xs : List A) → some_of test xs ≡ false
    → All (λ o. ¬ Q o) xs
none_of test Q h [] e = tt
none_of test Q h (x ∷ xs) e = elim (Bool-cases (test x)) [
  | inl t ↦ absurd (ground (arith, t, e))
  | inr f ↦ (λ q. cc (f, h x q), none_of test Q h xs (ground (arith, f, e)))
]

pub load_balancer-Fits :
    (p : Plan) (earlier : List LoadBalancer) (lb : LoadBalancer)
    → check_load_balancer p earlier lb ≡ valid
    → LoadBalancerFits p earlier lb
unfolding check_load_balancer
load_balancer-Fits p earlier lb h =
    let e1 = (>>-valid (claim_name "load balancer" (map (λ o. o.name) earlier) lb.name) _).0 h in
    record {
      name = claim_name-IsNew _ _ _ e1.0;
      network = (refuse_unknown (network_names p) lb.network _).0 e1.1;
    }

pub listener-Fits :
    (p : Plan) (earlier : List Listener) (l : Listener)
    → check_listener p earlier l ≡ valid
    → ListenerFits p earlier l
unfolding check_listener
listener-Fits p earlier l h =
    let e3 = (>>-valid _ (refuse_if (some_of _ earlier) _)).0 h in
    let e2 = (>>-valid _ (refuse_if (not (valid_port l.port)) _)).0 e3.0 in
    let e1 = (>>-valid (claim_name "listener" (map (λ o. o.name) earlier) l.name) _).0 e2.0 in
    record {
      name = claim_name-IsNew _ _ _ e1.0;
      load_balancer = (refuse_unknown (load_balancer_names p) l.load_balancer _).0 e1.1;
      port = valid_port-IsPort l.port _ e2.1;
      own_port =
          none_of _ (λ o. (o.load_balancer ≡ l.load_balancer) × (o.port ≡ l.port))
            (λ o q.
              rw ((eq_iff o.load_balancer l.load_balancer).1 q.0, (eq_ℤ_iff o.port l.port).1 q.1)
                refl)
            earlier ((refuse_if-valid _ _).0 e3.1);
    }

pub pool-Fits :
    (p : Plan) (earlier : List Pool) (pl : Pool)
    → check_pool p earlier pl ≡ valid
    → PoolFits p earlier pl
unfolding check_pool
pool-Fits p earlier pl h =
    let e2 = (>>-valid _ (refuse_if (some_of _ earlier) _)).0 h in
    let e1 = (>>-valid (claim_name "pool" (map (λ o. o.name) earlier) pl.name) _).0 e2.0 in
    record {
      name = claim_name-IsNew _ _ _ e1.0;
      listener = (refuse_unknown (listener_names p) pl.listener _).0 e1.1;
      only =
          none_of _ (λ o. o.listener ≡ pl.listener) (λ o q. (eq_iff o.listener pl.listener).1 q)
            earlier ((refuse_if-valid _ _).0 e2.1);
    }

pub monitor-Fits :
    (p : Plan) (earlier : List HealthMonitor) (h : HealthMonitor)
    → check_health_monitor p earlier h ≡ valid
    → MonitorFits p earlier h
unfolding check_health_monitor
monitor-Fits p earlier m h =
    let e2 = (>>-valid _ (refuse_if (some_of _ earlier) _)).0 h in
    let e1 = (>>-valid (claim_name "health monitor" (map (λ o. o.name) earlier) m.name) _).0 e2.0 in
    record {
      name = claim_name-IsNew _ _ _ e1.0;
      pool = (refuse_unknown (pool_names p) m.pool _).0 e1.1;
      only =
          none_of _ (λ o. o.pool ≡ m.pool) (λ o q. (eq_iff o.pool m.pool).1 q) earlier
            ((refuse_if-valid _ _).0 e2.1);
    }

-- What a CIDR is that the check accepts.
abbrev Slash24 : (net : Parsing) → net.Prefix → Type 0
Slash24 net prefix =
    (net.prefix_is4 prefix ≡ true) × (net.bits prefix ≡ 24) × (net.is_masked prefix ≡ true)

module _ (p : Plan) (net : Parsing) where
  vip_cidr-Slash24 :
      (cidr : String) (e : PlanError)
      → elim (parse_vip_cidr p net cidr) [ none ↦ invalid e | some _ ↦ valid ] ≡ valid
      → (prefix : net.Prefix) × (net.parse_prefix cidr ≡ some prefix) × Slash24 net prefix
  unfolding parse_vip_cidr
  vip_cidr-Slash24 cidr e h = elim (Option-cases (net.parse_prefix cidr)) [
    | inl q ↦ absurd (ground (arith, q, h))
    | inr (prefix, q) ↦
        (prefix, q, (ground (arith, q, h), ground (arith, q, h), ground (arith, q, h)))
  ]

  pub network-Fits :
      (earlier : List Network) (n : Network)
      → check_network p net earlier n ≡ valid
      → NetworkFits net p earlier n
  unfolding check_network
  network-Fits earlier n h =
      let e3 =
        (>>-valid _ (elim (parse_vip_cidr p net n.cidr) [
          | none ↦ invalid (PlanError.bad_cidr n.name n.cidr)
          | some _ ↦ valid
        ])).0
          h in
      let e2 = (>>-valid _ (refuse_if (knows (map (λ o. o.subnet) earlier) n.subnet) _)).0 e3.0 in
      let e1 = (>>-valid (claim_name "network" (map (λ o. o.name) earlier) n.name) _).0 e2.0 in
      let found = vip_cidr-Slash24 n.cidr _ e3.1 in
      record {
        name = claim_name-IsNew _ _ _ e1.0;
        subnet = (
          str_eq-not n.subnet "" ((refuse_if-valid _ _).0 e1.1),
          (knows-not _ n.subnet).0 ((refuse_if-valid _ _).0 e2.1),
        );
        prefix = found.0;
        cidr = found.1;
        slash_24 = found.2;
      }
