-- ===== src/Nova/Graph/Ordered.antt =====
-- The order of the Nova churn graphs' nodes (internal/chaos/novagraph/graph.go).
use dizzy.Prelude.{
  ◌≡◌, refl, inl, inr, if_cases, has, has_iff, String, List, [], ◌∷◌, ◌++◌, map, In, All, All-map,
  All-append, All-weaken, All-any, valid,
}
use dizzy.Nova.Plan.{
  ServerGroup, Network, Server, Volume, Port, Plan, validate, group_names, network_names,
  server_names,
}
use dizzy.Nova.Plan.WellFormed.{
  IsDeployable, ServerFits, VolumeFits, PortFits, LastNamed, validate-IsDeployable,
}
use dizzy.Nova.Graph.{
  Resolved, built, server_group_node, network_node, server_node, volume_node, port_node, plan_nodes,
  build,
}
use dizzy.Churn.Graph.{Node}
use dizzy.Churn.Layered.{IsOrdered, keys}
use dizzy.Builder.Ordering.{
  Known, ParentsIn, In-names, IsOrdered-append, Known-map, leaf-ParentsIn, last-Known, later-Known,
}

pub LastNamed-In :
    {name : String} {s : Server} {ss : List Server}
    → LastNamed name s ss
    → In name (map (λ t. t.name) ss)
LastNamed-In {s = s} (LastNamed.here e n) = In.first s.name e
LastNamed-In (LastNamed.there l) = In.later (LastNamed-In l)

module _ (p : Plan) (r : Resolved) (well : IsDeployable p) where
  servers-ParentsIn :
      (ks : List String)
      → Known (group_names p) ks
      → Known (network_names p) ks
      → ParentsIn ks (map (server_node p r) p.servers)
  servers-ParentsIn ks groups nets =
      All-map (ServerFits p) (λ nd. All (λ pk. In pk ks) nd.parents) (server_node p r)
        (λ s w.
          let own =
            All-weaken (λ net. In net (network_names p)) (λ pk. In pk ks) nets s.networks
              w.networks in
          if_cases (All (λ pk. In pk ks)) (has s.group)
            (λ e. elim w.group [
              | inl q ↦ absurd ((has_iff s.group).0 e q)
              | inr m ↦
                  All-append (λ pk. In pk ks) s.networks (s.group ∷ []) own (groups s.group m, tt)
            ])
            (λ _. own))
        p.servers well.servers

  volumes-ParentsIn :
      (ks : List String)
      → Known (server_names p) ks
      → ParentsIn ks (map (volume_node p r) p.volumes)
  volumes-ParentsIn ks servers =
      All-map (VolumeFits p) (λ nd. All (λ pk. In pk ks) nd.parents) (volume_node p r)
        (λ v w. (servers v.server w.1, tt)) p.volumes well.volumes

  ports-ParentsIn :
      (ks : List String)
      → Known (server_names p) ks
      → Known (network_names p) ks
      → ParentsIn ks (map (port_node p r) p.ports)
  ports-ParentsIn ks servers nets =
      All-map (PortFits p) (λ nd. All (λ pk. In pk ks) nd.parents) (port_node p r)
        (λ pt w. (servers pt.server (LastNamed-In w.last), (nets pt.network w.network, tt))) p.ports
        well.ports

  plan_nodes-IsOrdered : IsOrdered [] (plan_nodes p r)
  plan_nodes-IsOrdered =
      let x1 = map server_group_node p.server_groups in
      let x2 = x1 ++ map network_node p.networks in
      let servers = map (server_node p r) p.servers in
      let x3 = x2 ++ servers in
      let volumes = map (volume_node p r) p.volumes in
      let x4 = x3 ++ volumes in
      let groups2 =
        later-Known (group_names p) x1 (map network_node p.networks)
          (Known-map server_group_node p.server_groups) in
      let nets2 = last-Known x1 network_node p.networks in
      let nets3 = later-Known (network_names p) x2 servers nets2 in
      let nets4 = later-Known (network_names p) x3 volumes nets3 in
      let servers3 = last-Known x2 (server_node p r) p.servers in
      let servers4 = later-Known (server_names p) x3 volumes servers3 in
      let o1 =
        IsOrdered-append [] x1 tt
          (leaf-ParentsIn [] server_group_node (λ _. refl) p.server_groups) in
      let o2 =
        IsOrdered-append x1 (map network_node p.networks) o1
          (leaf-ParentsIn (keys x1) network_node (λ _. refl) p.networks) in
      let o3 = IsOrdered-append x2 servers o2 (servers-ParentsIn (keys x2) groups2 nets2) in
      let o4 = IsOrdered-append x3 volumes o3 (volumes-ParentsIn (keys x3) servers3) in
      IsOrdered-append x4 (map (port_node p r) p.ports) o4
        (ports-ParentsIn (keys x4) servers4 nets4)

-- What holds of each kind of node holds of all of them.
pub plan_nodes-All :
    (p : Plan) (r : Resolved) (Q : Node → Type 0)
    → ((g : ServerGroup) → Q (server_group_node g))
    → ((n : Network) → Q (network_node n))
    → ((s : Server) → In s.name (server_names p) → Q (server_node p r s))
    → ((v : Volume) → In v.name (map (λ v. v.name) p.volumes) → Q (volume_node p r v))
    → ((pt : Port) → In pt.name (map (λ pt. pt.name) p.ports) → Q (port_node p r pt))
    → All Q (plan_nodes p r)
plan_nodes-All p r Q groups nets servers volumes ports =
    let x1 = map server_group_node p.server_groups in
    let x2 = map network_node p.networks in
    let x3 = map (server_node p r) p.servers in
    let x4 = map (volume_node p r) p.volumes in
    let x5 = map (port_node p r) p.ports in
    let a1 : All Q x1 =
      All-map (λ g. Unit) Q server_group_node (λ g _. groups g) p.server_groups
        (All-any (λ g. Unit) (λ g. tt) p.server_groups) in
    let a2 : All Q x2 =
      All-map (λ n. Unit) Q network_node (λ n _. nets n) p.networks
        (All-any (λ n. Unit) (λ n. tt) p.networks) in
    let a3 : All Q x3 =
      All-map _ Q (server_node p r) servers p.servers (In-names (λ s. s.name) p.servers) in
    let a4 : All Q x4 =
      All-map _ Q (volume_node p r) volumes p.volumes (In-names (λ v. v.name) p.volumes) in
    let a5 : All Q x5 =
      All-map _ Q (port_node p r) ports p.ports (In-names (λ pt. pt.name) p.ports) in
    All-append Q (x1 ++ x2 ++ x3 ++ x4) x5
      (All-append Q (x1 ++ x2 ++ x3) x4 (All-append Q (x1 ++ x2) x3 (All-append Q x1 x2 a1 a2) a3)
        a4)
      a5

-- The graph of a plan that `Validate` accepts lists every node after all of its parents, each of
-- which is in the graph.
pub build-nodes :
    (p : Plan) (r : Resolved)
    → validate p ≡ valid
    → (build p r ≡ built (plan_nodes p r)) × IsOrdered [] (plan_nodes p r)
unfolding build
build-nodes p r h = (rw (h, build) refl, plan_nodes-IsOrdered p r ((validate-IsDeployable p).0 h))
