-- ===== src/Octavia/Plan/Fits.antt =====
-- What a plan has that `Validate` of internal/octavia/plan/plan.go accepts.
use Prim.Native.String.{◌++◌}
use dizzy.Prelude.{
  ltb, decimal, if◌then◌else◌, ℕ, ◌≤◌, ◌≡◌, ◌≢◌, ◌⊎◌, true, String, some, List, [], ◌∷◌, map, ℤ,
  pos, AllAfter, All, In,
}
use dizzy.Octavia.Plan.{
  Network, LoadBalancer, Listener, Pool, Member, HealthMonitor, Plan, Parsing, network_names,
  load_balancer_names, listener_names, pool_names,
}

abbrev pub IsNew : List String → String → Type 0
IsNew seen name = (name ≢ "") × (¬ In name seen)

abbrev pub IsPort : ℤ → Type 0
IsPort z = (n : ℕ) × (z ≡ pos n) × (1 ≤ n) × (n ≤ 65535)

-- An entry of the name has the value.
abbrev pub Says : {A : Type 0} → (A → String) → (A → String) → List A → String → String → Type 0
Says name value [] k v = ⊥
Says name value (x ∷ xs) k v = ((name x ≡ k) × (value x ≡ v)) ⊎ Says name value xs k v

-- The pool's name, the separator and the number, with two digits at least.
abbrev pub numbered : String → ℕ → String
numbered pool n = pool ++ ("-member-" ++ (if ltb n 10 then "0" ++ decimal n else decimal n))

-- The network of the load balancer of the listener of the pool.
pub record OnNetwork (p : Plan) (pool network : String) : Type 0 where
  pub listener : String
  pub load_balancer : String
  pub on_listener : Says (λ pl. pl.name) (λ pl. pl.listener) p.pools pool listener
  pub on_load_balancer :
      Says (λ l. l.name) (λ l. l.load_balancer) p.listeners listener load_balancer
  pub on_network : Says (λ lb. lb.name) (λ lb. lb.network) p.load_balancers load_balancer network

pub record LoadBalancerFits (p : Plan) (earlier : List LoadBalancer) (lb : LoadBalancer)
    : Type 0 where
  pub name : IsNew (map (λ o. o.name) earlier) lb.name
  pub network : In lb.network (network_names p)

-- No two listeners of a load balancer have one port.
pub record ListenerFits (p : Plan) (earlier : List Listener) (l : Listener) : Type 0 where
  pub name : IsNew (map (λ o. o.name) earlier) l.name
  pub load_balancer : In l.load_balancer (load_balancer_names p)
  pub port : IsPort l.port
  pub own_port : All (λ o. ¬ ((o.load_balancer ≡ l.load_balancer) × (o.port ≡ l.port))) earlier

pub record PoolFits (p : Plan) (earlier : List Pool) (pl : Pool) : Type 0 where
  pub name : IsNew (map (λ o. o.name) earlier) pl.name
  pub listener : In pl.listener (listener_names p)
  pub only : All (λ o. o.listener ≢ pl.listener) earlier

pub record MonitorFits (p : Plan) (earlier : List HealthMonitor) (h : HealthMonitor) : Type 0 where
  pub name : IsNew (map (λ o. o.name) earlier) h.name
  pub pool : In h.pool (pool_names p)
  pub only : All (λ o. o.pool ≢ h.pool) earlier

module _ (net : Parsing) where
  pub record NetworkFits (p : Plan) (earlier : List Network) (n : Network) : Type 0 where
    pub name : IsNew (map (λ o. o.name) earlier) n.name
    pub subnet : IsNew (map (λ o. o.subnet) earlier) n.subnet
    pub prefix : net.Prefix
    pub cidr : net.parse_prefix n.cidr ≡ some prefix
    pub slash_24 :
        (net.prefix_is4 prefix ≡ true) × (net.bits prefix ≡ 24) × (net.is_masked prefix ≡ true)

  -- The address is an IPv4 one of the upper half of the member's network, and no earlier member of
  -- that network has it.
  pub record AddressFits (p : Plan) (earlier : List Member) (m : Member) : Type 0 where
    pub addr : net.Addr
    pub prefix : net.Prefix
    pub parsed : net.parse_addr m.address ≡ some addr
    pub is4 : net.addr_is4 addr ≡ true
    pub network : String
    pub on_network : OnNetwork p m.pool network
    pub cidr : String
    pub network_cidr : Says (λ n. n.name) (λ n. n.cidr) p.networks network cidr
    pub parsed_cidr : net.parse_prefix cidr ≡ some prefix
    pub contained : net.contains_addr prefix addr ≡ true
    pub upper : (128 ≤ net.octet addr) × (net.octet addr ≤ 254)
    pub unused :
        All
          (λ o. ¬ (
            OnNetwork p o.pool network
            × (a : net.Addr) × (net.parse_addr o.address ≡ some a)
            × (net.same_addr a addr ≡ true)))
          earlier

  pub record MemberFits (p : Plan) (earlier : List Member) (m : Member) : Type 0 where
    pub name : IsNew (map (λ o. o.name) earlier) m.name
    pub pool : In m.pool (pool_names p)
    pub number : (n : ℕ) × (1 ≤ n) × (m.name ≡ numbered m.pool n)
    pub port : IsPort m.port
    pub address : AddressFits p earlier m

  pub record IsServable (p : Plan) : Type 0 where
    pub networks : AllAfter (NetworkFits p) [] p.networks
    pub load_balancers : AllAfter (LoadBalancerFits p) [] p.load_balancers
    pub listeners : AllAfter (ListenerFits p) [] p.listeners
    pub pools : AllAfter (PoolFits p) [] p.pools
    pub members : AllAfter (MemberFits p) [] p.members
    pub health_monitors : AllAfter (MonitorFits p) [] p.health_monitors
