-- ===== src/Octavia/Plan/Lookup.antt =====
-- The lookups of the check of a plan (internal/octavia/plan/plan.go) against the entries of the plan.
use dizzy.Prelude.{
  ◌≡◌, refl, Option-cases, sym, ◌∙◌, ap, subst, Bool-cases, inl, inr, String, str_eq, eq_iff, some,
  List, [], ◌∷◌, map, In, All, AllAfter, AllAfter-All, arith,
}
use dizzy.Octavia.Plan.{
  Network, Plan, Parsing, find, load_balancer_names, listener_names, pool_names, lb_network,
  listener_lb, pool_listener, member_network, parse_vip_cidr, cidr_of,
}
use dizzy.Octavia.Plan.Fits.{IsNew, Says, OnNetwork, LoadBalancerFits, ListenerFits, PoolFits}

-- A lookup of a name that is there finds what holds of every entry's value.
pub find-All :
    {A : Type 0} (P : String → Type 0) (name value : A → String) (xs : List A) (k : String)
    → All (λ x. P (value x)) xs
    → In k (map name xs)
    → P (find name value xs k)
unfolding find
find-All P name value [] k a m = elim m [ ]
find-All P name value (x ∷ xs) k a m = elim (Bool-cases (str_eq (name x) k)) [
  | inl e ↦ rw e a.0
  | inr e ↦ rw e (elim m [
    | In.first y q ↦ cc (e, (eq_iff (name x) k).1 q)
    | In.later i ↦ find-All P name value xs k a.1 i
  ])
]

-- It finds what an entry of the name says.
find-Says :
    {A : Type 0} (name value : A → String) (xs : List A) (k : String)
    → In k (map name xs)
    → Says name value xs k (find name value xs k)
unfolding find
find-Says name value [] k m = elim m [ ]
find-Says name value (x ∷ xs) k m = elim (Bool-cases (str_eq (name x) k)) [
  | inl e ↦ rw e (inl ((eq_iff (name x) k).0 e, refl))
  | inr e ↦ rw e (elim m [
    | In.first y q ↦ absurd (ground (arith, e, eq_iff (name x) k, q))
    | In.later i ↦ inr (find-Says name value xs k i)
  ])
]

module _ {A : Type 0} (Fits : List A → A → Type 0) (name value : A → String)
    (new : (earlier : List A) (x : A) → Fits earlier x → IsNew (map name earlier) (name x)) where
  -- No entry has the name of an earlier one.
  Says-new :
      (earlier xs : List A) (k v : String)
      → AllAfter Fits earlier xs
      → In k (map name earlier)
      → ¬ Says name value xs k v
  Says-new earlier [] k v a i s = s
  Says-new earlier (x ∷ xs) k v a i (inl (e, _)) =
      (new earlier x a.0).1 (subst (λ n. In n (map name earlier)) (sym e) i)
  Says-new earlier (x ∷ xs) k v a i (inr s) = Says-new (x ∷ earlier) xs k v a.1 (In.later i) s

  -- Under distinct names, nothing else is found.
  Says-find :
      (earlier xs : List A) (k v : String)
      → AllAfter Fits earlier xs
      → Says name value xs k v
      → find name value xs k ≡ v
  unfolding find
  Says-find earlier [] k v a s = absurd s
  Says-find earlier (x ∷ xs) k v a (inl (e, q)) = rw ((eq_iff (name x) k).1 e) q
  Says-find earlier (x ∷ xs) k v a (inr s) = elim (Bool-cases (str_eq (name x) k)) [
    | inl e ↦
        absurd (Says-new (x ∷ earlier) xs k v a.1 (In.first (name x) ((eq_iff (name x) k).0 e)) s)
    | inr e ↦ rw e (Says-find (x ∷ earlier) xs k v a.1 s)
  ]

-- What the checks before the members' one establish.
pub record Reaches (p : Plan) : Type 0 where
  pub load_balancers : AllAfter (LoadBalancerFits p) [] p.load_balancers
  pub listeners : AllAfter (ListenerFits p) [] p.listeners
  pub pools : AllAfter (PoolFits p) [] p.pools

module _ (p : Plan) (r : Reaches p) where
  pub member_network-OnNetwork :
      (pool : String) → In pool (pool_names p) → OnNetwork p pool (member_network p pool)
  member_network-OnNetwork pool i =
      let listed =
        find-All (λ s. In s (listener_names p)) (λ pl. pl.name) (λ pl. pl.listener) p.pools pool
          (AllAfter-All (PoolFits p) _ (λ _ _ f. f.listener) [] p.pools r.pools) i in
      let balanced =
        find-All (λ s. In s (load_balancer_names p)) (λ l. l.name) (λ l. l.load_balancer)
          p.listeners (pool_listener p pool)
          (AllAfter-All (ListenerFits p) _ (λ _ _ f. f.load_balancer) [] p.listeners r.listeners)
          listed in
      record {
        listener = pool_listener p pool;
        load_balancer = listener_lb p (pool_listener p pool);
        on_listener = find-Says (λ pl. pl.name) (λ pl. pl.listener) p.pools pool i;
        on_load_balancer =
            find-Says (λ l. l.name) (λ l. l.load_balancer) p.listeners (pool_listener p pool)
              listed;
        on_network =
            find-Says (λ lb. lb.name) (λ lb. lb.network) p.load_balancers
              (listener_lb p (pool_listener p pool)) balanced;
      }

  -- A pool is on no other network.
  pub OnNetwork-member_network :
      (pool network : String) → OnNetwork p pool network → member_network p pool ≡ network
  OnNetwork-member_network pool network on =
      let l : pool_listener p pool ≡ on.listener =
        Says-find (PoolFits p) (λ pl. pl.name) (λ pl. pl.listener) (λ _ _ f. f.name) [] p.pools pool
          on.listener r.pools on.on_listener in
      let b : listener_lb p on.listener ≡ on.load_balancer =
        Says-find (ListenerFits p) (λ l. l.name) (λ l. l.load_balancer) (λ _ _ f. f.name) []
          p.listeners on.listener on.load_balancer r.listeners on.on_load_balancer in
      let n : lb_network p on.load_balancer ≡ network =
        Says-find (LoadBalancerFits p) (λ lb. lb.name) (λ lb. lb.network) (λ _ _ f. f.name) []
          p.load_balancers on.load_balancer network r.load_balancers on.on_network in
      ap (λ x. lb_network p (listener_lb p x)) l ∙ ap (lb_network p) b ∙ n

-- The prefix that is found for a network is the one of its CIDR.
pub cidr_of-Says :
    (p : Plan) (net : Parsing) (ns : List Network) (k : String) (prefix : net.Prefix)
    → cidr_of p net ns k ≡ some prefix
    → (text : String) × Says (λ n. n.name) (λ n. n.cidr) ns k text
      × (net.parse_prefix text ≡ some prefix)
unfolding cidr_of parse_vip_cidr
cidr_of-Says p net [] k prefix h = cc h
cidr_of-Says p net (n ∷ ns) k prefix h = elim (Bool-cases (str_eq n.name k)) [
  | inl e ↦ elim (Option-cases (net.parse_prefix n.cidr)) [
    | inl q ↦ absurd (ground (arith, e, q, h))
    | inr (found, q) ↦ (n.cidr, inl ((eq_iff n.name k).0 e, refl), q ∙ ground (arith, e, q, h))
  ]
  | inr e ↦
      let rest = cidr_of-Says p net ns k prefix (ground (arith, e, h)) in
      (rest.0, inr rest.1, rest.2)
]
