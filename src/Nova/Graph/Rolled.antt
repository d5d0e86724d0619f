-- ===== src/Nova/Graph/Rolled.antt =====
-- The rolling graph of a Nova plan (`BuildRolling` of internal/chaos/novagraph/graph.go).
use dizzy.Prelude.{
  ◌≡◌, ◌≢◌, refl, ap, sym, ◌∙◌, subst, inl, inr, ◌⊎◌, Bool-cases, true, false, String, str_eq,
  eq_iff, Option-cases, none, List, [], ◌∷◌, map, In, All, All-map, All-weaken, valid,
  Verdict-cases, if_both, arith,
}
use dizzy.Nova.Plan.{Server, Plan, validate, server_names}
use dizzy.Nova.Plan.WellFormed.{IsDeployable, validate-IsDeployable}
use dizzy.Nova.Graph.{
  Resolved, Built, built, Groups, put, put_servers, put_owned, groups_of, groupless, is_root_kind,
  rolling_node, plan_nodes, build, build_rolling,
}
use dizzy.Nova.Graph.Ordered.{build-nodes, plan_nodes-All, LastNamed-In}
use dizzy.Churn.Graph.{Node}
use dizzy.Churn.Layered.{IsOrdered}
use dizzy.Builder.Shape.{outline, shape-map, shape-IsOrdered}

-- The map has a group for the name.
abbrev Filled : Groups → String → Type 0
Filled m k = m k ≢ ""

put-Filled : (m : Groups) (k v j : String) → v ≢ "" → Filled m j → Filled (put m k v) j
unfolding put
put-Filled m k v j h f = if_both (λ x. x ≢ "") (str_eq k j) h f

put-own : (m : Groups) (k v : String) → v ≢ "" → Filled (put m k v) k
unfolding put
put-own m k v h = rw ((eq_iff k k).1 refl) h

put_servers-Filled :
    (ss : List Server) (m : Groups) (j : String)
    → All (λ s. s.group ≢ "") ss
    → Filled m j ⊎ In j (map (λ s. s.name) ss)
    → Filled (put_servers ss m) j
unfolding put_servers
put_servers-Filled [] m j a h = elim h [ inl f ↦ f | inr i ↦ elim i [ ] ]
put_servers-Filled (s ∷ ss) m j a h = put_servers-Filled ss (put m s.name s.group) j a.1 (elim h [
  | inl f ↦ inl (put-Filled m s.name s.group j a.0 f)
  | inr i ↦ elim i [
    | In.first x e ↦ inl (subst (Filled (put m s.name s.group)) e (put-own m s.name s.group a.0))
    | In.later i ↦ inr i
  ]
])

module _ {A : Type 0} (name server : A → String) (names : List String) where
  put_owned-Filled :
      (xs : List A) (m : Groups) (j : String)
      → ((k : String) → In k names → Filled m k)
      → All (λ x. In (server x) names) xs
      → Filled m j ⊎ In j (map name xs)
      → Filled (put_owned name server xs m) j
  unfolding put_owned
  put_owned-Filled [] m j known a h = elim h [ inl f ↦ f | inr i ↦ elim i [ ] ]
  put_owned-Filled (x ∷ xs) m j known a h =
      let v : Filled m (server x) = known (server x) a.0 in
      put_owned-Filled xs (put m (name x) (m (server x))) j
        (λ k i. put-Filled m (name x) (m (server x)) k v (known k i)) a.1
        (elim h [
          | inl f ↦ inl (put-Filled m (name x) (m (server x)) j v f)
          | inr i ↦ elim i [
            | In.first y e ↦
                inl (subst (Filled (put m (name x) (m (server x)))) e (put-own m (name x) _ v))
            | In.later i ↦ inr i
          ]
        ])

groupless-none : (ss : List Server) → groupless ss ≡ none → All (λ s. s.group ≢ "") ss
unfolding groupless
groupless-none [] h = tt
groupless-none (s ∷ ss) h = elim (Bool-cases (str_eq s.group "")) [
  | inl e ↦ absurd (ground (arith, e, h))
  | inr e ↦ (λ q. cc (e, (eq_iff s.group "").1 q), groupless-none ss (ground (arith, e, h)))
]

-- A node of the rolling graph is a server group or a network, pinned and without parents, or it
-- rolls and is not pinned.
abbrev pub Settled : Node → Type 0
Settled nd =
    ((is_root_kind nd.kind ≡ true) × (nd.pinned ≡ true) × (nd.roll ≡ "") × (nd.parents ≡ []))
    ⊎ ((is_root_kind nd.kind ≡ false) × (nd.pinned ≡ false) × (nd.roll ≢ ""))

module _ (p : Plan) (r : Resolved) (well : IsDeployable p)
    (grouped : All (λ s. s.group ≢ "") p.servers) where
  abbrev groups : Groups
  groups = groups_of p

  abbrev after_servers : Groups
  after_servers = put_servers p.servers (λ _. "")

  abbrev after_volumes : Groups
  after_volumes = put_owned (λ v. v.name) (λ v. v.server) p.volumes after_servers

  volume_servers : All (λ v. In v.server (server_names p)) p.volumes
  volume_servers =
      All-weaken _ (λ v. In v.server (server_names p)) (λ v w. w.1) p.volumes well.volumes

  port_servers : All (λ pt. In pt.server (server_names p)) p.ports
  port_servers =
      All-weaken _ (λ pt. In pt.server (server_names p)) (λ pt w. LastNamed-In w.last) p.ports
        well.ports

  servers-Filled : (k : String) → In k (server_names p) → Filled after_servers k
  servers-Filled k i = put_servers-Filled p.servers (λ _. "") k grouped (inr i)

  volumes-Filled :
      (k : String)
      → In k (server_names p) ⊎ In k (map (λ v. v.name) p.volumes)
      → Filled after_volumes k
  volumes-Filled k h =
      put_owned-Filled (λ v. v.name) (λ v. v.server) (server_names p) p.volumes after_servers k
        servers-Filled volume_servers (elim h [ inl i ↦ inl (servers-Filled k i) | inr i ↦ inr i ])

  ports-Filled :
      (k : String)
      → (In k (server_names p) ⊎ In k (map (λ v. v.name) p.volumes))
        ⊎ In k (map (λ pt. pt.name) p.ports)
      → Filled groups k
  ports-Filled k h =
      put_owned-Filled (λ pt. pt.name) (λ pt. pt.server) (server_names p) p.ports after_volumes k
        (λ k i. volumes-Filled k (inl i)) port_servers
        (elim h [ inl i ↦ inl (volumes-Filled k i) | inr i ↦ inr i ])

  rolling_nodes-Settled : All Settled (map (rolling_node groups) (plan_nodes p r))
  rolling_nodes-Settled =
      All-map (λ nd. Settled (rolling_node groups nd)) Settled (rolling_node groups) (λ nd q. q)
        (plan_nodes p r)
        (plan_nodes-All p r (λ nd. Settled (rolling_node groups nd))
          (λ g. inl (refl, refl, refl, refl)) (λ n. inl (refl, refl, refl, refl))
          (λ s i. inr (refl, refl, ports-Filled s.name (inl (inl i))))
          (λ v i. inr (refl, refl, ports-Filled v.name (inl (inr i))))
          (λ pt i. inr (refl, refl, ports-Filled pt.name (inr i))))

rolling_node-outline : (m : Groups) (nd : Node) → outline (rolling_node m nd) ≡ outline nd
rolling_node-outline m nd = if_both (λ x. outline x ≡ outline nd) (is_root_kind nd.kind) refl refl

abbrev pub nodes_of : Built → List Node
nodes_of (built nodes) = nodes
nodes_of _ = []

-- What a rolling graph was built of.
pub record Rolls (p : Plan) (r : Resolved) (nodes : List Node) : Type 0 where
  pub passes : validate p ≡ valid
  pub ordered : IsOrdered [] nodes
  pub settled : All Settled nodes

pub build_rolling-Rolls :
    (p : Plan) (r : Resolved) (nodes : List Node)
    → build_rolling p r ≡ built nodes
    → Rolls p r nodes
unfolding build_rolling build
build_rolling-Rolls p r nodes h = elim (Verdict-cases (validate p)) [
  | inr (err, e) ↦ absurd (ground (arith, e, h))
  | inl e ↦ elim (Option-cases (groupless p.servers)) [
    | inr (name, f) ↦ absurd (ground (arith, e, f, h))
    | inl f ↦
        let well = (validate-IsDeployable p).0 e in
        let made = map (rolling_node (groups_of p)) (plan_nodes p r) in
        let whole : build_rolling p r ≡ built made = rw (e, f, build_rolling, build) refl in
        let same : made ≡ nodes = ap nodes_of (sym whole ∙ h) in
        let order =
          shape-IsOrdered [] (plan_nodes p r) made
            (sym (
              shape-map (rolling_node (groups_of p)) (rolling_node-outline (groups_of p))
                (plan_nodes p r)))
            (build-nodes p r e).1 in
        record {
          passes = e;
          ordered = subst (IsOrdered []) same order;
          settled =
              subst (All Settled) same
                (rolling_nodes-Settled p r well (groupless-none p.servers f));
        }
  ]
]
