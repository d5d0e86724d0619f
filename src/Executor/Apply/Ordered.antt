-- ===== src/Executor/Apply/Ordered.antt =====
-- `Apply` (internal/executor/executor.go) creates in dependency order.
use dizzy.Prelude.{◌⊎◌, [], String, In}
use dizzy.Plan.{
  Plan, network_names, subnet_pool_names, address_scope_names, router_names, subnet_names,
  security_group_names, port_names,
}
use dizzy.Plan.WellFormed.{WellFormed}
use dizzy.Executor.Apply.Sound.{Resolved, Sound}

-- The names that have an id behind the foundation, and behind the interior, by stage.
abbrev Founded : Plan → String → Type 0
Founded p n =
    In n (security_group_names p)
    ⊎ (In n (router_names p)
        ⊎ (In n (network_names p)
            ⊎ (In n (subnet_pool_names p) ⊎ (In n (address_scope_names p) ⊎ In n []))))

abbrev Interior : Plan → String → Type 0
Interior p n = In n [] ⊎ (In n (port_names p) ⊎ (In n [] ⊎ (In n (subnet_names p) ⊎ Founded p n)))
