-- ===== src/Scenario.antt =====
-- The Neutron scenario (internal/scenario/scenario.go): its record and `Validate`. Parsing the YAML
-- text is the yaml package's; the floating-point numbers and their order are a parameter.
pub mod Sane
use dizzy.Prelude.{
  ℕ, Bool, true, false, not, ◌&&◌, ◌||◌, if◌then◌else◌, String, str_eq, Option, none, some, List,
  [], ◌∷◌, ℤ, pos, negsuc, ltb_ℤ, Verdict, valid, invalid, ◌>>◌, refuse_if, each,
}

pub record Floats : Type 1 where
  pub Float : Type 0
  pub lt : Float → Float → Bool
  pub nought : Float
  pub one : Float

pub record Interval : Type 0 where
  pub min : ℤ
  pub max : ℤ

pub record Chaos (F : Type 0) : Type 0 where
  pub duration : ℤ
  pub interval : Interval
  pub parallel_max : ℤ
  pub churn_ratio : F
  pub target_fill : F
  pub bucket_width : ℤ

pub record Resources : Type 0 where
  pub subnet_pools : ℤ
  pub address_scopes : ℤ
  pub networks : ℤ
  pub routers : ℤ
  pub security_groups : ℤ
  pub router_links : ℤ
  pub floating_ips : ℤ

pub record Range : Type 0 where
  pub min : ℤ
  pub max : ℤ

pub record Distribution (F : Type 0) : Type 0 where
  pub subnets_per_network : Range
  pub ports_per_network : Range
  pub rules_per_security_group : Range
  pub subnet_from_pool_ratio : F
  pub ipv6_ratio : F
  pub subnets_attached_to_router_ratio : F
  pub routers_with_external_gateway_ratio : F
  pub floating_ip_associated_ratio : F

pub record Topology : Type 0 where
  pub router_attach_strategy : String
  pub port_security_group_count : Range

pub record Scenario (F : Type 0) : Type 0 where
  pub name : String
  pub seed : ℤ
  pub resources : Resources
  pub distribution : Distribution F
  pub topology : Topology
  pub chaos : Option (Chaos F)

-- The errors of `Validate`, by what their texts name.
pub data ScenarioError : Type 0 where
  empty_name : ScenarioError
  negative : String → ScenarioError
  exceeds_limit : String → ScenarioError
  min_negative : String → ScenarioError
  min_exceeds_max : String → ScenarioError
  max_exceeds_limit : String → ScenarioError
  ratio_out_of_range : String → ScenarioError
  no_subnet_pools : ScenarioError
  too_few_routers : ScenarioError
  unknown_strategy : ScenarioError

abbrev pub max_count : ℤ
max_count = pos 1_000_000

abbrev Check : Type 0
Check = Verdict ScenarioError

abbrev pub counts_of : Resources → List (String × ℤ)
counts_of r =
    ("resources.subnet_pools", r.subnet_pools)
    ∷ ("resources.address_scopes", r.address_scopes)
    ∷ ("resources.networks", r.networks)
    ∷ ("resources.routers", r.routers)
    ∷ ("resources.security_groups", r.security_groups)
    ∷ ("resources.router_links", r.router_links)
    ∷ ("resources.floating_ips", r.floating_ips)
    ∷ []

abbrev pub ranges_of : {F : Type 0} → Scenario F → List (String × Range)
ranges_of s =
    ("distribution.subnets_per_network", s.distribution.subnets_per_network)
    ∷ ("distribution.ports_per_network", s.distribution.ports_per_network)
    ∷ ("distribution.rules_per_security_group", s.distribution.rules_per_security_group)
    ∷ ("topology.port_security_group_count", s.topology.port_security_group_count)
    ∷ []

abbrev pub ratios_of : {F : Type 0} → Distribution F → List (String × F)
ratios_of d =
    ("distribution.subnet_from_pool_ratio", d.subnet_from_pool_ratio)
    ∷ ("distribution.ipv6_ratio", d.ipv6_ratio)
    ∷ ("distribution.subnets_attached_to_router_ratio", d.subnets_attached_to_router_ratio)
    ∷ ("distribution.routers_with_external_gateway_ratio", d.routers_with_external_gateway_ratio)
    ∷ ("distribution.floating_ip_associated_ratio", d.floating_ip_associated_ratio)
    ∷ []

check_count : String × ℤ → Check
check_count (key, value) =
    refuse_if (ltb_ℤ value (pos 0)) (negative key)
    >> refuse_if (ltb_ℤ max_count value) (exceeds_limit key)

validate_range : String × Range → Check
validate_range (key, r) =
    refuse_if (ltb_ℤ r.min (pos 0)) (min_negative key)
    >> refuse_if (ltb_ℤ r.max r.min) (min_exceeds_max key)
    >> refuse_if (ltb_ℤ max_count r.max) (max_exceeds_limit key)

module _ (fl : Floats) where
  open fl use {Float, lt, nought, one}

  check_ratio : String × Float → Check
  check_ratio (key, value) = refuse_if (lt value nought || lt one value) (ratio_out_of_range key)

  validate_chaos : Option (Chaos Float) → Check
  unfolding check_ratio
  validate_chaos none = valid
  validate_chaos (some c) =
      refuse_if (ltb_ℤ c.duration (pos 0)) (negative "chaos.duration")
      >> refuse_if (ltb_ℤ c.bucket_width (pos 0)) (negative "chaos.bucket_width")
      >> refuse_if (ltb_ℤ c.interval.min (pos 0)) (negative "chaos.interval.min")
      >> refuse_if (ltb_ℤ c.interval.max c.interval.min) (min_exceeds_max "chaos.interval")
      >> refuse_if (ltb_ℤ c.parallel_max (pos 0)) (negative "chaos.parallel.max")
      >> check_ratio ("chaos.churn_ratio", c.churn_ratio)
      >> check_ratio ("chaos.target_fill", c.target_fill)

  abbrev pub is_strategy : String → Bool
  is_strategy s = str_eq s "" || str_eq s "random"

  abbrev is_zero : ℤ → Bool
  is_zero z = not (ltb_ℤ z (pos 0) || ltb_ℤ (pos 0) z)

  unfoldable pub validate : Scenario Float → Check
  unfolding check_count validate_range check_ratio validate_chaos
  validate s =
      refuse_if (str_eq s.name "") empty_name
      >> each check_count (counts_of s.resources)
      >> each validate_range (ranges_of s)
      >> each check_ratio (ratios_of s.distribution)
      >> refuse_if
          (lt nought s.distribution.subnet_from_pool_ratio && is_zero s.resources.subnet_pools)
          no_subnet_pools
      >> refuse_if (ltb_ℤ (pos 0) s.resources.router_links && ltb_ℤ s.resources.routers (pos 2))
          too_few_routers
      >> refuse_if (not (is_strategy s.topology.router_attach_strategy)) unknown_strategy
      >> validate_chaos s.chaos
