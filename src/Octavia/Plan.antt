-- ===== src/Octavia/Plan.antt =====
-- The plan of an Octavia run (internal/octavia/plan/plan.go) and its check. The netip and strconv
-- packages are a parameter. A map that a loop of the check builds holds the entries before the
-- present one; the check of a later collection finds it complete.
pub mod Fits
pub mod Lookup
pub mod Entries
pub mod Members
pub mod Servable
use dizzy.Prelude.{
  ℕ, Bool, true, false, not, ◌&&◌, ◌||◌, if◌then◌else◌, ltb, ◌==◌, String, str_eq, Option, none,
  some, List, [], ◌∷◌, map, some_of, ℤ, pos, ltb_ℤ, eq_ℤ, Verdict, valid, invalid, ◌>>◌, refuse_if,
  each_after, knows,
}
use dizzy.Octavia.Names.{member_pool, is_member_name}

pub record Network : Type 0 where
  pub name : String
  pub subnet : String
  pub cidr : String

pub record LoadBalancer : Type 0 where
  pub name : String
  pub network : String

pub record Listener : Type 0 where
  pub name : String
  pub load_balancer : String
  pub port : ℤ

pub record Pool : Type 0 where
  pub name : String
  pub listener : String

pub record Member : Type 0 where
  pub name : String
  pub pool : String
  pub address : String
  pub port : ℤ

pub record HealthMonitor : Type 0 where
  pub name : String
  pub pool : String

pub record Plan : Type 0 where
  pub scenario : String
  pub seed : ℤ
  pub provider : String
  pub networks : List Network
  pub load_balancers : List LoadBalancer
  pub listeners : List Listener
  pub pools : List Pool
  pub members : List Member
  pub health_monitors : List HealthMonitor

-- What the check uses of net/netip and strconv. `octet` is `As4()[3]`, `is_masked` whether a prefix
-- equals its masked form.
pub record Parsing : Type 1 where
  pub Prefix : Type 0
  pub Addr : Type 0
  pub parse_prefix : String → Option Prefix
  pub prefix_is4 : Prefix → Bool
  pub bits : Prefix → ℕ
  pub is_masked : Prefix → Bool
  pub parse_addr : String → Option Addr
  pub addr_is4 : Addr → Bool
  pub octet : Addr → ℕ
  pub same_addr : Addr → Addr → Bool
  pub contains_addr : Prefix → Addr → Bool
  pub atoi : String → Option ℤ

-- The errors of `Validate`, by the names that their texts quote.
pub data PlanError : Type 0 where
  empty_name : String → PlanError
  duplicate_name : String → String → PlanError
  empty_subnet : String → PlanError
  duplicate_subnet : String → PlanError
  bad_cidr : String → String → PlanError
  unknown_reference : String → String → PlanError
  bad_port : String → ℤ → PlanError
  port_taken : String → ℤ → String → PlanError
  second_pool : String → String → PlanError
  second_monitor : String → String → PlanError
  foreign_member : String → String → PlanError
  misnamed_member : String → String → PlanError
  bad_address : String → String → PlanError
  address_taken : String → String → PlanError

abbrev pub Check : Type 0
Check = Verdict PlanError

-- `claimName`: the names before it are given.
unfoldable pub claim_name : String → List String → String → Check
claim_name kind seen name =
    refuse_if (str_eq name "") (empty_name kind)
    >> refuse_if (knows seen name) (duplicate_name kind name)

abbrev pub known : List String → String → String → Check
known names from name = refuse_if (not (knows names name)) (unknown_reference from name)

unfoldable pub valid_port : ℤ → Bool
valid_port port = not (ltb_ℤ port (pos 1)) && not (ltb_ℤ (pos 65535) port)

-- The lookup in a map that is filled from a list, under distinct names; a missing name reads as
-- empty.
unfoldable pub find : {A : Type 0} → (A → String) → (A → String) → List A → String → String
find name value [] k = ""
find name value (x ∷ xs) k =
    let rest = find name value xs k in if str_eq (name x) k then value x else rest

module _ (p : Plan) where
  abbrev pub network_names : List String
  network_names = map (λ n. n.name) p.networks

  abbrev pub load_balancer_names : List String
  load_balancer_names = map (λ lb. lb.name) p.load_balancers

  abbrev pub listener_names : List String
  listener_names = map (λ l. l.name) p.listeners

  abbrev pub pool_names : List String
  pool_names = map (λ pl. pl.name) p.pools

  abbrev pub lb_network : String → String
  lb_network = find (λ lb. lb.name) (λ lb. lb.network) p.load_balancers

  abbrev pub listener_lb : String → String
  listener_lb = find (λ l. l.name) (λ l. l.load_balancer) p.listeners

  abbrev pub pool_listener : String → String
  pool_listener = find (λ pl. pl.name) (λ pl. pl.listener) p.pools

  -- The network that a member's address must lie on, by its pool.
  abbrev pub member_network : String → String
  member_network pool = lb_network (listener_lb (pool_listener pool))

  unfoldable pub check_load_balancer : List LoadBalancer → LoadBalancer → Check
  check_load_balancer earlier lb =
      claim_name "load balancer" (map (λ o. o.name) earlier) lb.name
      >> known network_names lb.name lb.network

  unfoldable pub check_listener : List Listener → Listener → Check
  check_listener earlier l =
      claim_name "listener" (map (λ o. o.name) earlier) l.name
      >> known load_balancer_names l.name l.load_balancer
      >> refuse_if (not (valid_port l.port)) (bad_port l.name l.port)
      >> refuse_if
          (some_of (λ o. str_eq o.load_balancer l.load_balancer && eq_ℤ o.port l.port) earlier)
          (port_taken l.name l.port l.load_balancer)

  unfoldable pub check_pool : List Pool → Pool → Check
  check_pool earlier pl =
      claim_name "pool" (map (λ o. o.name) earlier) pl.name
      >> known listener_names pl.name pl.listener
      >> refuse_if (some_of (λ o. str_eq o.listener pl.listener) earlier)
          (second_pool pl.name pl.listener)

  unfoldable pub check_health_monitor : List HealthMonitor → HealthMonitor → Check
  check_health_monitor earlier h =
      claim_name "health monitor" (map (λ o. o.name) earlier) h.name
      >> known pool_names h.name h.pool
      >> refuse_if (some_of (λ o. str_eq o.pool h.pool) earlier) (second_monitor h.name h.pool)

  module _ (net : Parsing) where
    unfoldable pub parse_vip_cidr : String → Option net.Prefix
    parse_vip_cidr cidr =
        let accept : net.Prefix → Option net.Prefix = λ prefix.
          if not (net.prefix_is4 prefix)
            || not (net.bits prefix == 24)
            || not (net.is_masked prefix)
          then none
          else some prefix in
        elim (net.parse_prefix cidr) [ none ↦ none | some prefix ↦ accept prefix ]

    unfoldable pub check_network : List Network → Network → Check
    check_network earlier n =
        claim_name "network" (map (λ o. o.name) earlier) n.name
        >> refuse_if (str_eq n.subnet "") (empty_subnet n.name)
        >> refuse_if (knows (map (λ o. o.subnet) earlier) n.subnet) (duplicate_subnet n.subnet)
        >> elim (parse_vip_cidr n.cidr) [ none ↦ invalid (bad_cidr n.name n.cidr) | some _ ↦ valid ]

    -- `v.cidrs[network]`
    unfoldable pub cidr_of : List Network → String → Option net.Prefix
    cidr_of [] k = none
    cidr_of (n ∷ ns) k =
        let rest = cidr_of ns k in if str_eq n.name k then parse_vip_cidr n.cidr else rest

    unfoldable pub in_upper_half : Option net.Prefix → net.Addr → Bool
    in_upper_half none addr = false
    in_upper_half (some prefix) addr =
        net.contains_addr prefix addr
        && not (ltb (net.octet addr) 128)
        && not (ltb 254 (net.octet addr))

    -- An earlier member of the network has the address.
    unfoldable pub uses : String → net.Addr → Member → Bool
    uses network addr o =
        str_eq (member_network o.pool) network
        && elim (net.parse_addr o.address) [ none ↦ false | some a ↦ net.same_addr a addr ]

    unfoldable pub check_address : List Member → Member → net.Addr → Check
    check_address earlier m addr =
        refuse_if (not (net.addr_is4 addr)) (bad_address m.name m.address)
        >> refuse_if (not (in_upper_half (cidr_of p.networks (member_network m.pool)) addr))
            (bad_address m.name m.address)
        >> refuse_if (some_of (uses (member_network m.pool) addr) earlier)
            (address_taken m.name m.address)

    abbrev pub is_foreign : Member → Bool
    is_foreign m = elim (member_pool m.name) [ none ↦ false | some pool ↦ not (str_eq pool m.pool) ]

    unfoldable pub check_member : List Member → Member → Check
    check_member earlier m =
        claim_name "member" (map (λ o. o.name) earlier) m.name
        >> known pool_names m.name m.pool
        >> refuse_if (is_foreign m) (foreign_member m.name m.pool)
        >> refuse_if (not (is_member_name net.atoi m.name m.pool)) (misnamed_member m.name m.pool)
        >> refuse_if (not (valid_port m.port)) (bad_port m.name m.port)
        >> elim (net.parse_addr m.address) [
          | none ↦ invalid (bad_address m.name m.address)
          | some addr ↦ check_address earlier m addr
        ]

    unfoldable pub validate : Check
    validate =
        each_after check_network [] p.networks
        >> each_after check_load_balancer [] p.load_balancers
        >> each_after check_listener [] p.listeners
        >> each_after check_pool [] p.pools
        >> each_after check_member [] p.members
        >> each_after check_health_monitor [] p.health_monitors
