-- ===== src/Tests/Octavia.antt =====
-- Concrete inputs for Octavia (internal/octavia/plan/plan.go, internal/chaos/octaviagraph/graph.go): a
-- network with a load balancer, its listener, pool, member and health monitor.
use dizzy.Prelude.{
  ℕ, ◌≡◌, refl, true, All, In, ◌==◌, if◌then◌else◌, String, str_eq, knows, none, some, [], ◌∷◌, pos,
  valid, has_iff,
}
use dizzy.Octavia.Names.{
  member_name, member_pool, is_member_name, has_prefix, before_last, cut_prefix,
}
use dizzy.Octavia.Names.RoundTrip.{member_pool-member_name}
use dizzy.Octavia.Plan.{
  Plan, Parsing, load_balancer_names, validate, claim_name, valid_port, find, check_load_balancer,
  check_listener, check_pool, check_health_monitor, parse_vip_cidr, check_network, cidr_of,
  in_upper_half, uses, check_address, check_member,
}
use dizzy.Octavia.Plan.Fits.{IsServable}
use dizzy.Octavia.Plan.Servable.{validate-IsServable}
use dizzy.Octavia.Graph.{build, plan_nodes, gate_of}
use dizzy.Octavia.Graph.Gated.{Gated, plan_nodes-gates}
use dizzy.Octavia.Graph.Ordered.{Orders, build-Orders}

-- Also a pool's name that holds the separator.
member_pool-member_name_example :
    member_pool (member_name "pool-member-01" 100) ≡ some "pool-member-01"
member_pool-member_name_example =
    member_pool-member_name "pool-member-01" 100 ((has_iff "pool-member-01").0 refl)

-- One prefix, one address and one number are read.
abbrev parsing : Parsing
parsing = record {
  Prefix = ℕ;
  Addr = ℕ;
  parse_prefix = λ s. if str_eq s "10.0.1.0/24" then some 1 else none;
  prefix_is4 = λ _. true;
  bits = λ _. 24;
  is_masked = λ _. true;
  parse_addr = λ s. if str_eq s "10.0.1.128" then some 128 else none;
  addr_is4 = λ _. true;
  octet = λ a. a;
  same_addr = λ a b. a == b;
  contains_addr = λ _ _. true;
  atoi = λ s. if str_eq s "01" then some (pos 1) else none;
}

abbrev plan : Plan
plan = record {
  scenario = "one";
  seed = pos 1;
  provider = "";
  networks = record { name = "net-0001"; subnet = "sub-0001"; cidr = "10.0.1.0/24" } ∷ [];
  load_balancers = record { name = "lb-0001"; network = "net-0001" } ∷ [];
  listeners = record { name = "lsn-0001"; load_balancer = "lb-0001"; port = pos 80 } ∷ [];
  pools = record { name = "pool-0001"; listener = "lsn-0001" } ∷ [];
  members =
      record {
        name = "pool-0001-member-01";
        pool = "pool-0001";
        address = "10.0.1.128";
        port = pos 8080;
      }
      ∷ [];
  health_monitors = record { name = "hm-0001"; pool = "pool-0001" } ∷ [];
}

plan_passes : validate plan parsing ≡ valid
unfolding validate claim_name valid_port find check_load_balancer check_listener check_pool
    check_health_monitor parse_vip_cidr check_network cidr_of in_upper_half uses check_address
    check_member member_name member_pool is_member_name has_prefix before_last cut_prefix knows
plan_passes = refl

validate-IsServable_example : IsServable parsing plan
validate-IsServable_example = validate-IsServable plan parsing plan_passes

build-Orders_example : Orders (build plan parsing)
build-Orders_example = build-Orders plan parsing plan_passes

plan_nodes-gates_example :
    All (Gated plan) (plan_nodes plan)
    × ((lb : String) → In lb (load_balancer_names plan) → (g : ℕ) × (gate_of plan lb ≡ some g))
    × ((j k : String) (g : ℕ) → gate_of plan j ≡ some g → gate_of plan k ≡ some g → j ≡ k)
plan_nodes-gates_example = plan_nodes-gates plan parsing plan_passes
