-- ===== src/Executor/Apply/Sound.antt =====
-- What a stage of `Apply` (internal/executor/executor.go) keeps: resolved requests, and an id for each
-- name of the stages behind it.
use dizzy.Prelude.{
  ℕ, ◌≡◌, ◌⊎◌, inl, inr, refl, subst, sym, ◌∙◌, true, Option, none, some, List, [], ◌∷◌, map,
  length, All, String, str_eq, has, In, arith, if_both, All-map, All-append, All-take, length-map,
  eq_iff,
}
use dizzy.Churn.State.{Resource}
use dizzy.Executor.Retry.{Errors}
use dizzy.Executor.Stage.{Service, Pool, run_stage, handed_out, reached, provision}
use dizzy.Executor.Stage.Complete.{Identified, Fair, provision-has, run_stage_complete}
use dizzy.Executor.Apply.{
  Request, create_address_scope, create_subnet_pool, create_network, create_router,
  create_security_group, create_subnet, create_security_group_rule, create_port,
  create_router_interface, create_floating_ip, Ids, lookup, register, Progress, Outcome, going,
  stopped, conclude, stage,
}

-- An id is given where the reference is set.
abbrev pub Set : String → String → Type 0
Set s id = has s ≡ true → has id ≡ true

abbrev pub Resolved : Request → Type 0
Resolved (create_address_scope a) = Unit
Resolved (create_subnet_pool sp scope) = Set sp.address_scope scope
Resolved (create_network n) = Unit
Resolved (create_router r external) = Unit
Resolved (create_security_group sg) = Unit
Resolved (create_subnet s network pool) = (has network ≡ true) × Set s.subnet_pool pool
Resolved (create_security_group_rule r group remote) =
    (has group ≡ true) × Set r.remote_group remote
Resolved (create_port p network subnets groups) =
    (has network ≡ true) × All (λ s. has s.1 ≡ true) subnets × All (λ g. has g ≡ true) groups
Resolved (create_router_interface ri router subnet port) =
    (has router ≡ true) × Set ri.subnet subnet × Set ri.port port
Resolved (create_floating_ip fip external port) = (has external ≡ true) × Set fip.port port

abbrev pub Registered : Ids → String → Type 0
Registered ids n = has (lookup ids n) ≡ true

-- Registering keeps what is registered and adds the names.
Registered-cons :
    (m id : String) (ids : Ids) (n : String)
    → has id ≡ true
    → Registered ids n
    → Registered ((m, id) ∷ ids) n
Registered-cons m id ids n h r = if_both (λ s. has s ≡ true) (str_eq m n) h r

Registered-register :
    (ns : List String) (rs : List Resource) (ids : Ids) (n : String)
    → All (λ r. has r.id ≡ true) rs
    → length ns ≡ length rs
    → In n ns ⊎ Registered ids n
    → Registered (register ns rs ids) n
unfolding register
Registered-register [] rs ids n a e (inr h) = h
Registered-register [] rs ids n a e (inl m) = elim m [ ]
Registered-register (m ∷ ms) [] ids n a e h = absurd (omega arith)
Registered-register (m ∷ ms) (r ∷ rs) ids n a e (inr h) =
    Registered-register ms rs _ n a.1 (omega arith) (inr (Registered-cons m r.id ids n a.0 h))
Registered-register (m ∷ ms) (r ∷ rs) ids n a e (inl (In.first x same)) =
    Registered-register ms rs _ n a.1 (omega arith) (inr (rw ((eq_iff m n).1 same) a.0))
Registered-register (m ∷ ms) (r ∷ rs) ids n a e (inl (In.later i)) =
    Registered-register ms rs _ n a.1 (omega arith) (inl i)

-- What holds of an apply between stages: its requests are resolved, and the known names registered.
module _ (errors : Errors) where
  abbrev pub Sound : (String → Type 0) → Outcome errors.E → Type 0
  Sound Known (going p) = All Resolved p.requests × ((n : String) → Known n → Registered p.ids n)
  Sound Known (stopped e p) = All Resolved p.requests

  conclude-Sound :
      (service : Service Request errors.E) (pools : ℕ → List Request → Pool errors.E)
      (Known : String → Type 0) (names : List String) (out : List Resource × Option errors.E)
      (p : Progress)
      → (out.1 ≡ none → (n : String) → Known n → Registered (register names out.0 p.ids) n)
      → All Resolved p.requests
      → Sound Known (conclude errors service pools names out p)
  conclude-Sound service pools Known names (res, some e) p known a = a
  conclude-Sound service pools Known names (res, none) p known a = (a, known refl)

  reached-All :
      (service : Service Request errors.E) (before : Option errors.E) (n : ℕ) (qs : List Request)
      → All Resolved qs
      → All Resolved (reached errors service before n qs)
  reached-All service (some e) n qs a = tt
  reached-All service none n qs a = All-take Resolved n qs a

  module _ (service : Service Request errors.E) (pools : ℕ → List Request → Pool errors.E) where
    module _ (identified : Identified errors service)
        (fair : (k : ℕ) (qs : List Request) → Fair errors service (pools k qs) qs) where
      pub All-provisioned :
          (qs : List Request)
          → All (λ q. (provision errors service q).1 ≡ none) qs
          → All (λ r. has r.id ≡ true) (map (λ q. (provision errors service q).0) qs)
      All-provisioned qs a =
          All-map (λ q. (provision errors service q).1 ≡ none) (λ r. has r.id ≡ true)
            (λ q. (provision errors service q).0)
            (λ q h. provision-has errors service identified q h) qs a

      stage-Registered :
          (pool : Pool errors.E) (names : List String) (qs : List Request) (ids : Ids) (n : String)
          → Fair errors service pool qs
          → (run_stage errors service pool qs).1 ≡ none
          → (names ≡ []) ⊎ (length names ≡ length qs)
          → In n names ⊎ Registered ids n
          → Registered (register names (run_stage errors service pool qs).0 ids) n
      unfolding register
      stage-Registered pool names qs ids n f h (inl e) (inr m) = rw e m
      stage-Registered pool names qs ids n f h (inl e) (inl m) =
          elim (subst (λ ns. In n ns) e m) [ ]
      stage-Registered pool names qs ids n f h (inr e) m =
          let ((same, fine), all) = run_stage_complete errors service pool qs f h in
          rw same (
            Registered-register names _ ids n (All-provisioned qs fine)
              (e ∙ sym (length-map (λ q. (provision errors service q).0) qs)) m)

      pub stage-Sound :
          (k : ℕ) (names : List String) (qs : Ids → List Request) (Known : String → Type 0)
          (o : Outcome errors.E)
          → ((ids : Ids) → (names ≡ []) ⊎ (length names ≡ length (qs ids)))
          → ((ids : Ids) → ((n : String) → Known n → Registered ids n) → All Resolved (qs ids))
          → Sound Known o
          → Sound (λ n. In n names ⊎ Known n) (stage errors service pools k names qs o)
      unfolding stage handed_out
      stage-Sound k names qs Known (stopped e p) sizes resolved a = a
      stage-Sound k names qs Known (going p) sizes resolved (a, known) =
          conclude-Sound service pools (λ n. In n names ⊎ Known n) names _ _
            (λ h n m.
              stage-Registered (pools k (qs p.ids)) names (qs p.ids) p.ids n (fair k (qs p.ids)) h
                (sizes p.ids) (elim m [ inl i ↦ inl i | inr i ↦ inr (known n i) ]))
            (All-append Resolved p.requests _ a
              (reached-All service _ _ (qs p.ids) (resolved p.ids known)))
