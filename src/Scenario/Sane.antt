-- ===== src/Scenario/Sane.antt =====
-- What `Validate` of internal/scenario/scenario.go accepts.
use dizzy.Prelude.{◌≤◌, ◌≡◌, ◌≢◌, ◌⊎◌, true, false, Option, none, some, ℤ, pos, negsuc, ltb_ℤ}
use dizzy.Scenario.{Floats, Chaos, Range, Resources, Distribution, Topology, Scenario}

-- 0 ≤ z ≤ 1,000,000
abbrev pub IsCount : ℤ → Type 0
IsCount (pos n) = n ≤ 1_000_000
IsCount (negsuc n) = ⊥

-- 0 ≤ min ≤ max ≤ 1,000,000
abbrev pub IsRange : ℤ → ℤ → Type 0
IsRange (pos a) (pos b) = (a ≤ b) × (b ≤ 1_000_000)
IsRange _ _ = ⊥

abbrev pub CountsAreSane : Resources → Type 0
CountsAreSane r =
    IsCount r.subnet_pools
    × IsCount r.address_scopes
    × IsCount r.networks
    × IsCount r.routers
    × IsCount r.security_groups
    × IsCount r.router_links
    × IsCount r.floating_ips

abbrev pub IsSaneRange : Range → Type 0
IsSaneRange r = IsRange r.min r.max

abbrev pub RangesAreSane : {F : Type 0} → Distribution F → Topology → Type 0
RangesAreSane d t =
    IsSaneRange d.subnets_per_network
    × IsSaneRange d.ports_per_network
    × IsSaneRange d.rules_per_security_group
    × IsSaneRange t.port_security_group_count

-- Not negative.
abbrev pub IsNatural : ℤ → Type 0
IsNatural (pos n) = Unit
IsNatural (negsuc n) = ⊥

-- The parts of a chaos block that may be set must be sane.
abbrev pub IsOrdered : ℤ → ℤ → Type 0
IsOrdered (pos a) (pos b) = a ≤ b
IsOrdered _ _ = ⊥

module _ (fl : Floats) where
  open fl use {Float, lt, nought, one}

  -- Neither below 0 nor above 1.
  abbrev pub IsRatio : Float → Type 0
  IsRatio x = (lt x nought ≡ false) × (lt one x ≡ false)

  abbrev pub RatiosAreSane : Distribution Float → Type 0
  RatiosAreSane d =
      IsRatio d.subnet_from_pool_ratio
      × IsRatio d.ipv6_ratio
      × IsRatio d.subnets_attached_to_router_ratio
      × IsRatio d.routers_with_external_gateway_ratio
      × IsRatio d.floating_ip_associated_ratio

  abbrev pub IsSaneChaos : Option (Chaos Float) → Type 0
  IsSaneChaos none = Unit
  IsSaneChaos (some c) =
      IsNatural c.duration
      × IsNatural c.bucket_width
      × IsOrdered c.interval.min c.interval.max
      × IsNatural c.parallel_max
      × IsRatio c.churn_ratio
      × IsRatio c.target_fill

  pub record IsSane (s : Scenario Float) : Type 0 where
    pub name : s.name ≢ ""
    pub counts : CountsAreSane s.resources
    pub ranges : RangesAreSane s.distribution s.topology
    pub ratios : RatiosAreSane s.distribution
    pub pools :
        lt nought s.distribution.subnet_from_pool_ratio ≡ true → s.resources.subnet_pools ≢ pos 0
    pub links : s.resources.router_links ≢ pos 0 → ltb_ℤ s.resources.routers (pos 2) ≡ false
    pub strategy :
        (s.topology.router_attach_strategy ≡ "") ⊎ (s.topology.router_attach_strategy ≡ "random")
    pub chaos : IsSaneChaos s.chaos
