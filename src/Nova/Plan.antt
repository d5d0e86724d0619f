-- ===== src/Nova/Plan.antt =====
-- The plan of a Nova run (internal/nova/plan/plan.go): the enumerated servers and what comes with
-- them, the check that the references among them resolve, and the counts of what the run will do.
pub mod WellFormed
use dizzy.Prelude.{
  ℕ, Bool, true, false, not, ◌&&◌, ◌||◌, if◌then◌else◌, String, str_eq, Option, none, some, List,
  [], ◌∷◌, map, ℤ, pos, ltb_ℤ, length, select, Verdict, invalid, valid, ◌>>◌, refuse_if, each, has,
  knows,
}

pub record ServerGroup : Type 0 where
  pub name : String
  pub policy : String

pub record Network : Type 0 where
  pub name : String
  pub subnet : String
  pub cidr : String

pub record Server : Type 0 where
  pub name : String
  pub boot_from_volume : Bool
  pub root_volume_gib : ℤ
  pub networks : List String
  pub group : String
  pub user_data : Bool
  pub stop_start : String
  pub resize : Bool
  pub live_migrate : Bool
  pub cold_migrate : Bool
  pub delete : Bool

pub record Volume : Type 0 where
  pub name : String
  pub size_gib : ℤ
  pub server : String
  pub detach : Bool

pub record Port : Type 0 where
  pub name : String
  pub network : String
  pub server : String
  pub detach : Bool

pub record Plan : Type 0 where
  pub scenario : String
  pub seed : ℤ
  pub image : String
  pub flavor : String
  pub resize_flavor : String
  pub networks : List Network
  pub server_groups : List ServerGroup
  pub servers : List Server
  pub volumes : List Volume
  pub ports : List Port

abbrev pub stop_start_soft : String
stop_start_soft = "soft"

abbrev pub stop_start_hard : String
stop_start_hard = "hard"

abbrev pub policy_anti_affinity : String
policy_anti_affinity = "anti-affinity"

abbrev pub policy_soft_anti_affinity : String
policy_soft_anti_affinity = "soft-anti-affinity"

unfoldable pub valid_policy : String → Bool
valid_policy p = str_eq p policy_anti_affinity || str_eq p policy_soft_anti_affinity

-- The errors of `Validate`, by the names that their texts quote.
pub data PlanError : Type 0 where
  bad_policy : String → String → PlanError
  no_network : String → PlanError
  unknown_network : String → String → PlanError
  unknown_server_group : String → String → PlanError
  bad_root_size : String → ℤ → PlanError
  no_resize_flavor : String → PlanError
  bad_size : String → ℤ → PlanError
  unknown_server : String → String → PlanError
  foreign_network : String → String → String → PlanError

abbrev pub group_names : Plan → List String
group_names p = map (λ g. g.name) p.server_groups

abbrev pub network_names : Plan → List String
network_names p = map (λ n. n.name) p.networks

abbrev pub server_names : Plan → List String
server_names p = map (λ s. s.name) p.servers

-- The networks that the finished map `servers` holds for a name: those of the last server of it.
unfoldable pub server_networks : List Server → String → Option (List String)
server_networks [] name = none
server_networks (s ∷ ss) name =
    let later = server_networks ss name in
    let own = if str_eq s.name name then some s.networks else none in
    elim later [ some nets ↦ some nets | none ↦ own ]

abbrev pub Check : Type 0
Check = Verdict PlanError

unfoldable pub check_server_group : ServerGroup → Check
check_server_group g = refuse_if (not (valid_policy g.policy)) (bad_policy g.name g.policy)

unfoldable pub is_empty : List String → Bool
is_empty [] = true
is_empty (x ∷ xs) = false

unfoldable pub check_server : Plan → Server → Check
check_server p s =
    refuse_if (is_empty s.networks) (no_network s.name)
    >> each (λ net. refuse_if (not (knows (network_names p) net)) (unknown_network s.name net))
        s.networks
    >> refuse_if (has s.group && not (knows (group_names p) s.group))
        (unknown_server_group s.name s.group)
    >> refuse_if (s.boot_from_volume && ltb_ℤ s.root_volume_gib (pos 1))
        (bad_root_size s.name s.root_volume_gib)
    >> refuse_if (s.resize && str_eq p.resize_flavor "") (no_resize_flavor s.name)

unfoldable pub check_volume : Plan → Volume → Check
check_volume p v =
    refuse_if (ltb_ℤ v.size_gib (pos 1)) (bad_size v.name v.size_gib)
    >> refuse_if (not (knows (server_names p) v.server)) (unknown_server v.name v.server)

unfoldable pub check_port : Plan → Port → Check
check_port p pt =
    let rest : List String → Check = λ member.
      refuse_if (not (knows (network_names p) pt.network)) (unknown_network pt.name pt.network)
      >> refuse_if (not (knows member pt.network)) (foreign_network pt.name pt.network pt.server) in
    elim (server_networks p.servers pt.server) [
      | none ↦ invalid (unknown_server pt.name pt.server)
      | some member ↦ rest member
    ]

unfoldable pub validate : Plan → Check
validate p =
    each check_server_group p.server_groups
    >> each (check_server p) p.servers
    >> each (check_volume p) p.volumes
    >> each (check_port p) p.ports

pub resizes : Plan → ℕ
resizes p = length (select (λ s. s.resize) p.servers)

pub live_migrations : Plan → ℕ
live_migrations p = length (select (λ s. s.live_migrate) p.servers)

pub cold_migrations : Plan → ℕ
cold_migrations p = length (select (λ s. s.cold_migrate) p.servers)

pub deletes : Plan → ℕ
deletes p = length (select (λ s. s.delete) p.servers)

-- The soft and the hard ones.
pub stop_starts : Plan → ℕ × ℕ
stop_starts p =
    let variant : String → ℕ = λ v. length (select (λ s. str_eq s.stop_start v) p.servers) in
    (variant stop_start_soft, variant stop_start_hard)

pub boots_from_volume : Plan → ℕ
boots_from_volume p = length (select (λ s. s.boot_from_volume) p.servers)

pub detached_volumes : Plan → ℕ
detached_volumes p = length (select (λ v. v.detach) p.volumes)

pub detached_ports : Plan → ℕ
detached_ports p = length (select (λ pt. pt.detach) p.ports)
