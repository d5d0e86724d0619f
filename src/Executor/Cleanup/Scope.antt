-- ===== src/Executor/Cleanup/Scope.antt =====
-- What `Cleanup` (internal/executor/cleanup.go) touches: the run's own resources.
use dizzy.Prelude.{
  ℕ, ◌≡◌, String, str_eq, Option, none, some, List, [], ◌∷◌, All, if_both, Bool-cases, inl, inr,
  eq_iff,
}
use dizzy.Churn.State.{Resource}
use dizzy.Executor.Cleanup.{
  Reply, Cleaner, recorded_of_kind, and_then, then_add, after_delete, delete_resources, delete_kind,
  detach_routers, sweep_networks, run_then, cleanup_rest, cleanup_networks, cleanup,
}

-- Calls that keep a property of the cloud where they concern owned resources.
pub record Scoped {S E : Type 0} (c : Cleaner S E) (run_id : String) (Owned : Resource → Type 0)
    (Keeps : S → Type 0) : Type 0 where
  pub listed : (kind : String) (s : S) → Keeps s → All Owned (c.list_by_tag kind run_id s).value
  pub list_keeps : (kind : String) (s : S) → Keeps s → Keeps (c.list_by_tag kind run_id s).cloud
  pub delete_keeps : (r : Resource) (s : S) → Owned r → Keeps s → Keeps (c.delete r s).cloud
  pub detach_keeps :
      (r : Resource) (s : S) → Owned r → Keeps s → Keeps (c.detach_router_interfaces r.id s).cloud
  pub sweep_keeps :
      (r : Resource) (s : S) → Owned r → Keeps s → Keeps (c.delete_network_ports r.id s).cloud

module _ {S E : Type 0} (c : Cleaner S E) (run_id : String) (Owned : Resource → Type 0)
    (Keeps : S → Type 0) (scoped : Scoped c run_id Owned Keeps) where
  data Kept (r : Reply S E ℕ) : Type 0 where
    kept : Keeps r.cloud → Kept r

  and_then-Kept :
      {A : Type 0} (a : A) (e : Option E) (s : S) (next : A → S → Reply S E ℕ)
      → Keeps s
      → ((t : S) → Keeps t → Kept (next a t))
      → Kept (and_then c a e s next)
  unfolding and_then
  and_then-Kept a none s next k h = h s k
  and_then-Kept a (some e) s next k h = kept k

  then_add-Kept :
      (n : ℕ) (e : Option E) (s : S) (next : S → Reply S E ℕ)
      → Keeps s
      → ((t : S) → Keeps t → Kept (next t))
      → Kept (then_add c n e s next)
  unfolding then_add
  then_add-Kept n none s next k h = elim (h s k) [ kept l ↦ kept l ]
  then_add-Kept n (some e) s next k h = kept k

  after_delete-Kept :
      (e : Option E) (s : S) (next : S → Reply S E ℕ)
      → Keeps s
      → ((t : S) → Keeps t → Kept (next t))
      → Kept (after_delete c e s next)
  after_delete-Kept none s next k h = then_add-Kept 1 none s next k h
  after_delete-Kept (some e) s next k h =
      if_both (λ (r : Reply S E ℕ). Kept r) (c.is_not_found e) (h s k) (kept k)

  run_then-Kept :
      (r : Reply S E ℕ) (next : S → Reply S E ℕ)
      → Kept r
      → ((t : S) → Keeps t → Kept (next t))
      → Kept (run_then c r next)
  unfolding run_then
  run_then-Kept r next (kept k) h = then_add-Kept r.value r.err r.cloud next k h

  delete_resources-Kept :
      (rs : List Resource) (s : S) → All Owned rs → Keeps s → Kept (delete_resources c rs s)
  unfolding delete_resources
  delete_resources-Kept [] s a k = kept k
  delete_resources-Kept (r ∷ rs) s a k =
      after_delete-Kept _ _ (delete_resources c rs) (scoped.delete_keeps r s a.0 k)
        (λ t l. delete_resources-Kept rs t a.1 l)

  detach_routers-Kept :
      (rs : List Resource) (s : S) → All Owned rs → Keeps s → Kept (detach_routers c rs s)
  unfolding detach_routers
  detach_routers-Kept [] s a k = kept k
  detach_routers-Kept (r ∷ rs) s a k =
      and_then-Kept _ _ _ (λ _. detach_routers c rs) (scoped.detach_keeps r s a.0 k)
        (λ t l. detach_routers-Kept rs t a.1 l)

  sweep_networks-Kept :
      (ns : List Resource) (s : S) → All Owned ns → Keeps s → Kept (sweep_networks c ns s)
  unfolding sweep_networks
  sweep_networks-Kept [] s a k = kept k
  sweep_networks-Kept (n ∷ ns) s a k =
      then_add-Kept _ _ _ (sweep_networks c ns) (scoped.sweep_keeps n s a.0 k)
        (λ t l. sweep_networks-Kept ns t a.1 l)

  delete_kind-Kept : (kind : String) (s : S) → Keeps s → Kept (delete_kind c kind run_id s)
  unfolding delete_kind
  delete_kind-Kept kind s k =
      and_then-Kept _ _ _ (delete_resources c) (scoped.list_keeps kind s k)
        (λ t l. delete_resources-Kept _ t (scoped.listed kind s k) l)

  cleanup_rest-Kept :
      (recorded routers : List Resource) (s : S)
      → All Owned (recorded_of_kind recorded "address-scope")
      → All Owned routers
      → Keeps s
      → Kept (cleanup_rest c run_id recorded routers s)
  unfolding cleanup_rest
  cleanup_rest-Kept recorded routers s scopes own k =
      run_then-Kept _ _ (delete_kind-Kept "subnet" s k) λ s k.
        run_then-Kept _ _ (delete_kind-Kept "security-group" s k) λ s k.
          run_then-Kept _ _ (delete_resources-Kept routers s own k) λ s k.
            run_then-Kept _ _ (delete_kind-Kept "subnet-pool" s k)
              λ s k. delete_resources-Kept _ s scopes k

  cleanup_networks-Kept :
      (recorded routers : List Resource) (s : S)
      → All Owned (recorded_of_kind recorded "address-scope")
      → All Owned routers
      → Keeps s
      → Kept (cleanup_networks c run_id recorded routers s)
  unfolding cleanup_networks
  cleanup_networks-Kept recorded routers s scopes own k =
      let nets = scoped.listed "network" s k in
      and_then-Kept _ _ _ _ (scoped.list_keeps "network" s k) λ s k.
        run_then-Kept _ _ (sweep_networks-Kept _ s nets k) λ s k.
          run_then-Kept _ _ (delete_resources-Kept _ s nets k)
            λ s k. cleanup_rest-Kept recorded routers s scopes own k

  cleanup-Kept :
      (recorded : List Resource) (s : S)
      → All Owned (recorded_of_kind recorded "address-scope")
      → Keeps s
      → Kept (cleanup c run_id recorded s)
  unfolding cleanup
  cleanup-Kept recorded s scopes k = run_then-Kept _ _ (delete_kind-Kept "floating-ip" s k) λ s k.
      let routers = scoped.listed "router" s k in
      and_then-Kept _ _ _ _ (scoped.list_keeps "router" s k) λ s k.
        run_then-Kept _ _ (detach_routers-Kept _ s routers k) λ s k.
          run_then-Kept _ _ (delete_kind-Kept "port" s k)
            λ s k. cleanup_networks-Kept recorded _ s scopes routers k

All-recorded_of_kind :
    (Owned : Resource → Type 0) (kind : String) (rs : List Resource)
    → All (λ r. r.kind ≡ kind → Owned r) rs
    → All Owned (recorded_of_kind rs kind)
unfolding recorded_of_kind
All-recorded_of_kind Owned kind [] a = tt
All-recorded_of_kind Owned kind (r ∷ rs) a = elim (Bool-cases (str_eq r.kind kind)) [
  | inl e ↦ rw e (a.0 ((eq_iff r.kind kind).0 e), All-recorded_of_kind Owned kind rs a.1)
  | inr e ↦ rw e (All-recorded_of_kind Owned kind rs a.1)
]

-- A property of the cloud that survives every listing by the run's tag, and every delete, detach
-- and port sweep of an owned resource, survives `Cleanup`, errors included; where the resources
-- listed under the run's tag and the address scopes of the run record are owned.
pub cleanup-Keeps :
    {S E : Type 0} (c : Cleaner S E) (run_id : String) (Owned : Resource → Type 0)
    (Keeps : S → Type 0)
    → Scoped c run_id Owned Keeps
    → (recorded : List Resource) → All (λ r. r.kind ≡ "address-scope" → Owned r) recorded
    → (s : S) → Keeps s
    → Keeps (cleanup c run_id recorded s).cloud
cleanup-Keeps c run_id Owned Keeps scoped recorded scopes s k =
    elim (cleanup-Kept c run_id Owned Keeps scoped recorded s
      (All-recorded_of_kind Owned "address-scope" recorded scopes) k) [ kept h ↦ h ]
