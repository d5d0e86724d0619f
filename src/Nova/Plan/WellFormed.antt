-- ===== src/Nova/Plan/WellFormed.antt =====
-- What `Validate` of internal/nova/plan/plan.go establishes.
use dizzy.Prelude.{
  ◌≡◌, ◌≢◌, ◌↔◌, ◌⊎◌, inl, inr, refl, sym, subst, Bool, true, false, not, ◌&&◌, String, str_eq,
  eq_iff, some, none, Option-cases, List, [], ◌∷◌, map, ℤ, pos, ltb_ℤ, valid, refuse_if,
  refuse_if-valid, each, >>-valid, each-valid, All, knows, knows_iff, In, Resolves, refuse_optional,
  refuse_unknown, arith, Bool-cases,
}
use dizzy.Nova.Plan.{
  ServerGroup, Server, Volume, Port, Plan, policy_anti_affinity, policy_soft_anti_affinity,
  valid_policy, group_names, network_names, server_names, server_networks, is_empty, no_network,
  unknown_network, Check, check_server_group, check_server, check_volume, check_port, validate,
}

abbrev pub IsPolicy : String → Type 0
IsPolicy s = (s ≡ policy_anti_affinity) ⊎ (s ≡ policy_soft_anti_affinity)

abbrev pub IsPositive : ℤ → Type 0
IsPositive z = ltb_ℤ z (pos 1) ≡ false

-- What holds where a condition is met.
abbrev pub If : Bool → Type 0 → Type 0
If b P = b ≡ true → P

pub record ServerFits (p : Plan) (s : Server) : Type 0 where
  pub some_network : s.networks ≢ []
  pub networks : All (λ net. In net (network_names p)) s.networks
  pub group : Resolves (group_names p) s.group
  pub root : If s.boot_from_volume (IsPositive s.root_volume_gib)
  pub resizable : If s.resize (p.resize_flavor ≢ "")

abbrev pub VolumeFits : Plan → Volume → Type 0
VolumeFits p v = IsPositive v.size_gib × In v.server (server_names p)

-- The server is the last one of its name.
pub data LastNamed (name : String) (s : Server) : List Server → Type 0 where
  here :
      {ss : List Server}
      → s.name ≡ name
      → ¬ In name (map (λ t. t.name) ss)
      → LastNamed name s (s ∷ ss)
  there : {t : Server} {ss : List Server} → LastNamed name s ss → LastNamed name s (t ∷ ss)

-- A port is on a network of the plan that is one of its server's.
pub record PortFits (p : Plan) (pt : Port) : Type 0 where
  pub server : Server
  pub last : LastNamed pt.server server p.servers
  pub network : In pt.network (network_names p)
  pub own : In pt.network server.networks

pub record IsDeployable (p : Plan) : Type 0 where
  pub groups : All (λ g. IsPolicy g.policy) p.server_groups
  pub servers : All (ServerFits p) p.servers
  pub volumes : All (VolumeFits p) p.volumes
  pub ports : All (PortFits p) p.ports

pub valid_policy-IsPolicy : (s : String) → (valid_policy s ≡ true) ↔ IsPolicy s
unfolding valid_policy
valid_policy-IsPolicy s =
    ground (arith, eq_iff s policy_anti_affinity, eq_iff s policy_soft_anti_affinity)

server_group_valid : (g : ServerGroup) → (check_server_group g ≡ valid) ↔ IsPolicy g.policy
unfolding check_server_group
server_group_valid g =
    let r = refuse_if-valid (not (valid_policy g.policy)) _ in
    let k = valid_policy-IsPolicy g.policy in
    (λ h. k.0 (ground (arith, r.0 h)), λ i. r.1 (ground (arith, k.1 i)))

is_empty_lem : (xs : List String) → (is_empty xs ≡ false) ↔ (xs ≢ [])
unfolding is_empty
is_empty_lem [] = (λ h. cc, λ n. absurd (n refl))
is_empty_lem (x ∷ xs) = (λ h e. cc e, λ n. refl)

refuse_when : {E : Type 0} (b c : Bool) (e : E) → (refuse_if (b && c) e ≡ valid) ↔ If b (c ≡ false)
refuse_when b c e = ground arith

server_valid : (p : Plan) (s : Server) → (check_server p s ≡ valid) ↔ ServerFits p s
unfolding check_server
server_valid p s =
    let net : String → Check =
      λ net. refuse_if (not (knows (network_names p) net)) (unknown_network s.name net) in
    let a = refuse_if-valid (is_empty s.networks) (no_network s.name) in
    let some_net = is_empty_lem s.networks in
    let b = each-valid _ net (λ net. refuse_unknown (network_names p) net _) s.networks in
    let c = refuse_optional (group_names p) s.group _ in
    let d = refuse_when s.boot_from_volume (ltb_ℤ s.root_volume_gib (pos 1)) _ in
    let e = refuse_when s.resize (str_eq p.resize_flavor "") _ in
    let v1 = >>-valid (refuse_if (is_empty s.networks) (no_network s.name)) (each net s.networks) in
    let v2 = >>-valid _ _ in
    let v3 = >>-valid _ _ in
    let v4 = >>-valid _ _ in
    (
      λ h.
          let e4 = v4.0 h in
          let e3 = v3.0 e4.0 in
          let e2 = v2.0 e3.0 in
          let e1 = v1.0 e2.0 in
          record {
            some_network = some_net.0 (a.0 e1.0);
            networks = b.0 e1.1;
            group = c.0 e2.1;
            root = d.0 e3.1;
            resizable = λ r q. ground (arith, e.0 e4.1 r, (eq_iff p.resize_flavor "").1 q);
          },
      λ w. v4.1 (
        v3.1 (
          v2.1 (v1.1 (a.1 (some_net.1 w.some_network), b.1 w.networks), c.1 w.group),
          d.1 w.root,
        ),
        e.1 (λ r. elim (Bool-cases (str_eq p.resize_flavor "")) [
          | inl q ↦ absurd (w.resizable r ((eq_iff p.resize_flavor "").0 q))
          | inr q ↦ q
        ]),
      ),
    )

volume_valid : (p : Plan) (v : Volume) → (check_volume p v ≡ valid) ↔ VolumeFits p v
unfolding check_volume
volume_valid p v =
    let size = refuse_if-valid (ltb_ℤ v.size_gib (pos 1)) _ in
    let known = refuse_unknown (server_names p) v.server _ in
    let both = >>-valid _ _ in
    (λ h. (size.0 (both.0 h).0, known.0 (both.0 h).1), λ r. both.1 (size.1 r.0, known.1 r.1))

server_networks-none :
    (ss : List Server) (name : String)
    → (server_networks ss name ≡ none) ↔ (¬ In name (map (λ s. s.name) ss))
unfolding server_networks
server_networks-none [] name = (λ h m. elim m [ ], λ h. refl)
server_networks-none (s ∷ ss) name =
    let rest = server_networks-none ss name in
    elim (Option-cases (server_networks ss name)) [
      | inr (nets, e) ↦ (
        λ h. absurd (ground (arith, e, h)),
        λ n. absurd (ground (arith, e, rest.1 (λ m. n (In.later m)))),
      )
      | inl e ↦ elim (Bool-cases (str_eq s.name name)) [
        | inl q ↦ (
          λ h. absurd (ground (arith, e, q, h)),
          λ n. absurd (n (In.first s.name ((eq_iff s.name name).0 q))),
        )
        | inr q ↦ (
          λ _ m. elim m [
            | In.first x y ↦ cc ((eq_iff s.name name).1 y, q)
            | In.later m ↦ rest.0 e m
          ],
          λ n. ground (arith, e, q),
        )
      ]
    ]

server_networks-LastNamed :
    (ss : List Server) (name : String) (nets : List String)
    → server_networks ss name ≡ some nets
    → (s : Server) × LastNamed name s ss × (s.networks ≡ nets)
unfolding server_networks
server_networks-LastNamed [] name nets h = cc
server_networks-LastNamed (s ∷ ss) name nets h = elim (Option-cases (server_networks ss name)) [
  | inr (found, e) ↦
      let r = server_networks-LastNamed ss name nets (ground (arith, e, h)) in
      (r.0, LastNamed.there r.1, r.2)
  | inl e ↦ elim (Bool-cases (str_eq s.name name)) [
    | inl q ↦ (
      s,
      LastNamed.here ((eq_iff s.name name).0 q) ((server_networks-none ss name).0 e),
      ground (arith, e, q, h),
    )
    | inr q ↦ absurd (ground (arith, e, q, h))
  ]
]

LastNamed-server_networks :
    {name : String} {s : Server} {ss : List Server}
    → LastNamed name s ss
    → server_networks ss name ≡ some s.networks
unfolding server_networks
LastNamed-server_networks {name} {s} (LastNamed.here {ss = ss} e n) =
    ground (arith, (eq_iff s.name name).1 e, (server_networks-none ss name).1 n)
LastNamed-server_networks (LastNamed.there l) = ground (arith, LastNamed-server_networks l)

port_valid : (p : Plan) (pt : Port) → (check_port p pt ≡ valid) ↔ PortFits p pt
unfolding check_port
port_valid p pt = (
  λ h. elim (Option-cases (server_networks p.servers pt.server)) [
    | inl e ↦ absurd (ground (arith, e, h))
    | inr (nets, e) ↦
        let found = server_networks-LastNamed p.servers pt.server nets e in
        record {
          server = found.0;
          last = found.1;
          network = (knows_iff _ _).0 (ground (arith, e, h));
          own = subst (In pt.network) (sym found.2) ((knows_iff _ _).0 (ground (arith, e, h)));
        }
  ],
  λ w. ground (
    arith,
    LastNamed-server_networks w.last,
    (knows_iff _ _).1 w.network,
    (knows_iff _ _).1 w.own,
  ),
)

-- A plan passes `Validate` exactly when it is well formed: every server group has one of the two
-- anti-affinity policies, every server is on some network, its networks and its server group, if
-- any, are the plan's, a server that boots from a volume has a positive root size and one marked
-- for resize finds a resize flavor, every volume has a positive size and a server of the plan, and
-- every port is on a network of the plan that is one of its server's, the last server of that name.
pub validate-IsDeployable : (p : Plan) → (validate p ≡ valid) ↔ IsDeployable p
unfolding validate
validate-IsDeployable p =
    let groups = each-valid _ _ server_group_valid p.server_groups in
    let servers = each-valid _ _ (server_valid p) p.servers in
    let volumes = each-valid _ _ (volume_valid p) p.volumes in
    let ports = each-valid _ _ (port_valid p) p.ports in
    let v1 = >>-valid (each check_server_group p.server_groups) (each (check_server p) p.servers) in
    let v2 = >>-valid _ (each (check_volume p) p.volumes) in
    let v3 = >>-valid _ (each (check_port p) p.ports) in
    (
      λ h.
          let e3 = v3.0 h in
          let e2 = v2.0 e3.0 in
          let e1 = v1.0 e2.0 in
          record {
            groups = groups.0 e1.0;
            servers = servers.0 e1.1;
            volumes = volumes.0 e2.1;
            ports = ports.0 e3.1;
          },
      λ w. v3.1 (
        v2.1 (v1.1 (groups.1 w.groups, servers.1 w.servers), volumes.1 w.volumes),
        ports.1 w.ports,
      ),
    )
