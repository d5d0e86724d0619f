-- ===== src/Nova/Graph.antt =====
-- The three churn graphs that are built of a Nova plan (internal/chaos/novagraph/graph.go): `Build`,
-- `BuildRolling` and `BuildLongLived`. What the nodes' closures do is in Nova/Operations; a node
-- here says whether it has a mutation.
pub mod Ordered
pub mod Rolled
pub mod LongLived
pub mod Kept
use dizzy.Prelude.{
  ℕ, suc, Bool, true, false, ◌&&◌, ◌||◌, if◌then◌else◌, String, str_eq, has, Option, none, some,
  List, [], ◌∷◌, ◌++◌, map, valid, invalid,
}
use dizzy.Nova.Plan.{ServerGroup, Network, Server, Volume, Port, Plan, PlanError, validate}
use dizzy.Churn.Graph.{Node, no_node, index_keys, find_key}

-- What the targets of the plan's names resolved to (internal/nova/executor/executor.go).
pub record Resolved : Type 0 where
  pub image_id : String
  pub flavor_id : String
  pub resize_flavor_id : String
  pub live_migration : Bool
  pub cold_migration : Bool

pub data Built : Type 0 where
  built : List Node → Built
  invalid_plan : PlanError → Built
  no_server_group : String → Built

abbrev pub kind_server_group : String
kind_server_group = "server_group"

abbrev pub kind_network : String
kind_network = "network"

abbrev pub kind_server : String
kind_server = "server"

abbrev pub kind_volume : String
kind_volume = "volume"

abbrev pub kind_port : String
kind_port = "port"

-- `family[name]`: the channel made for the last server of that name, by the server's number.
unfoldable pub family : ℕ → List Server → String → Option ℕ
family i [] name = none
family i (s ∷ ss) name =
    let later = family (suc i) ss name in
    let own = if str_eq s.name name then some i else none in
    elim later [ some g ↦ some g | none ↦ own ]

unfoldable pub has_lifecycle : Resolved → Server → Bool
has_lifecycle r s = has s.stop_start || s.resize || (s.live_migrate && r.live_migration)

abbrev pub server_group_node : ServerGroup → Node
server_group_node g = record no_node { key = g.name; kind = kind_server_group }

abbrev pub network_node : Network → Node
network_node n = record no_node { key = n.name; kind = kind_network }

abbrev pub server_parents : Server → List String
server_parents s = if has s.group then s.networks ++ s.group ∷ [] else s.networks

module _ (p : Plan) (r : Resolved) where
  abbrev pub gate_of : String → Option ℕ
  gate_of name = family 0 p.servers name

  abbrev pub server_node : Server → Node
  server_node s = record no_node {
    key = s.name;
    kind = kind_server;
    parents = server_parents s;
    gate = gate_of s.name;
    has_mutate = has_lifecycle r s;
  }

  abbrev pub volume_node : Volume → Node
  volume_node v = record no_node {
    key = v.name;
    kind = kind_volume;
    parents = v.server ∷ [];
    gate = gate_of v.server;
  }

  abbrev pub port_node : Port → Node
  port_node pt = record no_node {
    key = pt.name;
    kind = kind_port;
    parents = pt.server ∷ pt.network ∷ [];
    gate = gate_of pt.server;
  }

  abbrev pub plan_nodes : List Node
  plan_nodes =
      map server_group_node p.server_groups
      ++ map network_node p.networks
      ++ map server_node p.servers
      ++ map volume_node p.volumes
      ++ map port_node p.ports

  unfoldable pub build : Built
  build = elim (validate p) [ invalid e ↦ invalid_plan e | valid ↦ built plan_nodes ]

-- The map `group` of `BuildRolling`; a missing key reads as the empty name.
abbrev pub Groups : Type 0
Groups = String → String

unfoldable pub put : Groups → String → String → Groups
put m k v = λ j. if str_eq k j then v else m j

unfoldable pub put_servers : List Server → Groups → Groups
put_servers [] m = m
put_servers (s ∷ ss) m = put_servers ss (put m s.name s.group)

-- The loops over the volumes and the ports: each takes the group of its server.
unfoldable pub put_owned : {A : Type 0} → (A → String) → (A → String) → List A → Groups → Groups
put_owned name server [] m = m
put_owned name server (x ∷ xs) m = put_owned name server xs (put m (name x) (m (server x)))

abbrev pub groups_of : Plan → Groups
groups_of p =
    let servers = put_servers p.servers (λ _. "") in
    let volumes = put_owned (λ v. v.name) (λ v. v.server) p.volumes servers in
    put_owned (λ pt. pt.name) (λ pt. pt.server) p.ports volumes

-- The first server without a server group.
unfoldable pub groupless : List Server → Option String
groupless [] = none
groupless (s ∷ ss) = let rest = groupless ss in if str_eq s.group "" then some s.name else rest

abbrev pub is_root_kind : String → Bool
is_root_kind kind = str_eq kind kind_server_group || str_eq kind kind_network

abbrev pub rolling_node : Groups → Node → Node
rolling_node m nd =
    if is_root_kind nd.kind
    then record nd { has_mutate = false; pinned = true }
    else record nd { has_mutate = false; roll = m nd.key }

unfoldable pub build_rolling : Plan → Resolved → Built
unfolding build
build_rolling p r = elim (build p r) [
  | built nodes ↦ elim (groupless p.servers) [
    | some name ↦ no_server_group name
    | none ↦ built (map (rolling_node (groups_of p)) nodes)
  ]
  | invalid_plan e ↦ invalid_plan e
  | no_server_group name ↦ no_server_group name
]

-- The operations that `serverMutation` draws of.
pub data ServerOp : Type 0 where
  stop_start_op resize_op live_migrate_op cold_migrate_op : ServerOp

abbrev pub offered : Bool → ServerOp → List ServerOp
offered b op = if b then op ∷ [] else []

unfoldable pub server_ops : Resolved → Server → List ServerOp
server_ops r s =
    offered (has s.stop_start) stop_start_op
    ++ offered (s.resize && has r.resize_flavor_id) resize_op
    ++ offered (s.live_migrate && r.live_migration) live_migrate_op
    ++ offered (s.cold_migrate && r.cold_migration) cold_migrate_op

-- Whether `serverMutation` is not nil.
unfoldable pub has_mutation : Resolved → Server → Bool
unfolding server_ops
has_mutation r s = elim (server_ops r s) [ [] ↦ false | op ∷ ops ↦ true ]

-- `nodes[i].Mutate = m`
unfoldable pub set_mutate : ℕ → List Node → List Node
set_mutate i [] = []
set_mutate ℕ.zero (nd ∷ nds) = record nd { has_mutate = true } ∷ nds
set_mutate (suc i) (nd ∷ nds) = nd ∷ set_mutate i nds

-- `index[name]`, 0 for an unknown name.
abbrev pub index_of : List (String × ℕ) → String → ℕ
index_of index name = elim (find_key name index) [ none ↦ 0 | some i ↦ i ]

unfoldable pub set_where :
    {A : Type 0} → (A → Bool) → (A → String) → List (String × ℕ) → List A → List Node → List Node
set_where test name index [] nds = nds
set_where test name index (x ∷ xs) nds =
    let marked = set_mutate (index_of index (name x)) nds in
    set_where test name index xs (if test x then marked else nds)

abbrev pub pinned_node : Node → Node
pinned_node nd = record nd { pinned = true; has_mutate = false }

abbrev pub set_mutations : Plan → Resolved → List Node → List Node
set_mutations p r nodes =
    let index = index_keys 0 nodes [] in
    let servers = set_where (has_mutation r) (λ s. s.name) index p.servers nodes in
    let volumes = set_where (λ v. v.detach) (λ v. v.name) index p.volumes servers in
    set_where (λ pt. pt.detach) (λ pt. pt.name) index p.ports volumes

unfoldable pub build_long_lived : Plan → Resolved → Built
unfolding build set_where set_mutate has_mutation
build_long_lived p r = elim (build p r) [
  | built nodes ↦ built (set_mutations p r (map pinned_node nodes))
  | invalid_plan e ↦ invalid_plan e
  | no_server_group name ↦ no_server_group name
]
