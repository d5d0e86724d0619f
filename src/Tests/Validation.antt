-- ===== src/Tests/Validation.antt =====
-- A plan and a scenario that pass their checks, and some that do not.
use dizzy.Prelude.{ℕ, ◌≡◌, ◌↔◌, refl, true, false, ltb, none, [], ◌∷◌, pos, valid, invalid, knows}
use dizzy.Plan.{Plan, validate, subnet_attached_twice}
use dizzy.Plan.WellFormed.{WellFormed, validate-WellFormed}
use dizzy.Scenario.{Floats, Scenario}
use dizzy.Scenario

abbrev pub topology : Plan
topology = record {
  scenario = "small";
  seed = pos 42;
  address_scopes = [];
  subnet_pools = [];
  networks = record { name = "net-0001" } ∷ [];
  subnets =
      record {
        name = "subnet-0001";
        network = "net-0001";
        ip_version = 4;
        cidr = "10.0.0.0/24";
        subnet_pool = "";
        prefix_len = 0;
        ipv6_address_mode = "";
        ipv6_ra_mode = "";
        disable_dhcp = false;
      }
      ∷ [];
  routers = record { name = "router-0001"; external_gateway = true } ∷ [];
  router_interfaces =
      record { name = "ri-0001"; router = "router-0001"; subnet = "subnet-0001"; port = "" } ∷ [];
  security_groups = [];
  ports = [];
  floating_ips = record { name = "fip-0001"; port = "" } ∷ [];
}

pub topology_passes : validate topology ≡ valid
unfolding validate knows
topology_passes = refl

validate-WellFormed_example : (validate topology ≡ valid) ↔ WellFormed topology
validate-WellFormed_example = validate-WellFormed topology

-- The same subnet on a second interface.
attached_twice : Plan
attached_twice = record topology {
  router_interfaces =
      record { name = "ri-0001"; router = "router-0001"; subnet = "subnet-0001"; port = "" }
      ∷ record { name = "ri-0002"; router = "router-0001"; subnet = "subnet-0001"; port = "" }
      ∷ [];
}

attached_twice_fails : validate attached_twice ≡ invalid (subnet_attached_twice "subnet-0001")
unfolding validate attached_twice knows
attached_twice_fails = refl

-- Hundredths for floats.
abbrev hundredths : Floats
hundredths = record { Float = ℕ; lt = ltb; nought = 0; one = 100 }

abbrev scenario : Scenario ℕ
scenario = record {
  name = "small";
  seed = pos 1;
  resources = record {
    subnet_pools = pos 1;
    address_scopes = pos 1;
    networks = pos 2;
    routers = pos 2;
    security_groups = pos 1;
    router_links = pos 1;
    floating_ips = pos 0;
  };
  distribution = record {
    subnets_per_network = record { min = pos 1; max = pos 2 };
    ports_per_network = record { min = pos 0; max = pos 3 };
    rules_per_security_group = record { min = pos 0; max = pos 3 };
    subnet_from_pool_ratio = 50;
    ipv6_ratio = 0;
    subnets_attached_to_router_ratio = 100;
    routers_with_external_gateway_ratio = 0;
    floating_ip_associated_ratio = 0;
  };
  topology = record {
    router_attach_strategy = "random";
    port_security_group_count = record { min = pos 0; max = pos 1 };
  };
  chaos = none;
}

scenario_passes : Scenario.validate hundredths scenario ≡ valid
unfolding Scenario.validate
scenario_passes = refl
