-- ===== src/Executor/Cleanup.antt =====
-- `Cleanup` (internal/executor/cleanup.go): the teardown of a run, in reverse dependency order. The
-- cloud behind the `Cleaner` interface is a parameter; the text around a delete's error is left out.
pub mod Scope
use dizzy.Prelude.{
  ℕ, suc, ◌+◌, Bool, true, false, if◌then◌else◌, String, str_eq, Option, none, some, List, [], ◌∷◌,
  select,
}
use dizzy.Churn.State.{Resource}

-- A call of the cloud: its result, the error, and the cloud behind it.
pub record Reply (S E A : Type 0) : Type 0 where
  pub value : A
  pub err : Option E
  pub cloud : S

pub record Cleaner (S E : Type 0) : Type 0 where
  pub list_by_tag : String → String → S → Reply S E (List Resource)
  pub detach_router_interfaces : String → S → Reply S E ℕ
  pub delete_network_ports : String → S → Reply S E ℕ
  pub delete : Resource → S → Reply S E ℕ
  pub is_not_found : E → Bool

unfoldable pub recorded_of_kind : List Resource → String → List Resource
recorded_of_kind recorded kind = select (λ r. str_eq r.kind kind) recorded

module _ {S E : Type 0} (c : Cleaner S E) where
  abbrev Count : Type 0
  Count = Reply S E ℕ

  -- Where the call failed, the teardown ends with its error.
  unfoldable pub and_then : {A : Type 0} → A → Option E → S → (A → S → Count) → Count
  and_then a none s next = next a s
  and_then a (some e) s next = record { value = 0; err = some e; cloud = s }

  -- `deleted += n`, and an early return on the error.
  unfoldable pub then_add : ℕ → Option E → S → (S → Count) → Count
  then_add n none s next = let r = next s in record r { value = n + r.value }
  then_add n (some e) s next = record { value = n; err = some e; cloud = s }

  -- A resource that is gone is passed over.
  abbrev pub after_delete : Option E → S → (S → Count) → Count
  after_delete none s next = then_add 1 none s next
  after_delete (some e) s next =
      if c.is_not_found e then next s else record { value = 0; err = some e; cloud = s }

  unfoldable pub delete_resources : List Resource → S → Count
  delete_resources [] s = record { value = 0; err = none; cloud = s }
  delete_resources (r ∷ rs) s =
      let d = c.delete r s in after_delete d.err d.cloud (delete_resources rs)

  unfoldable pub delete_kind : String → String → S → Count
  delete_kind kind run_id s =
      let l = c.list_by_tag kind run_id s in and_then l.value l.err l.cloud delete_resources

  unfoldable pub detach_routers : List Resource → S → Count
  detach_routers [] s = record { value = 0; err = none; cloud = s }
  detach_routers (r ∷ rs) s =
      let d = c.detach_router_interfaces r.id s in
      and_then d.value d.err d.cloud (λ _. detach_routers rs)

  unfoldable pub sweep_networks : List Resource → S → Count
  sweep_networks [] s = record { value = 0; err = none; cloud = s }
  sweep_networks (n ∷ ns) s =
      let d = c.delete_network_ports n.id s in then_add d.value d.err d.cloud (sweep_networks ns)

  unfoldable pub run_then : Count → (S → Count) → Count
  run_then r next = then_add r.value r.err r.cloud next

  -- Behind the subnets.
  unfoldable pub cleanup_rest : String → List Resource → List Resource → S → Count
  cleanup_rest run_id recorded routers s = run_then (delete_kind "subnet" run_id s) λ s.
      run_then (delete_kind "security-group" run_id s) λ s.
        run_then (delete_resources routers s) λ s.
          run_then (delete_kind "subnet-pool" run_id s)
            λ s. delete_resources (recorded_of_kind recorded "address-scope") s

  unfoldable pub cleanup_networks : String → List Resource → List Resource → S → Count
  cleanup_networks run_id recorded routers s =
      let l = c.list_by_tag "network" run_id s in
      and_then l.value l.err l.cloud λ nets s.
        run_then (sweep_networks nets s)
          λ s. run_then (delete_resources nets s) (cleanup_rest run_id recorded routers)

  unfoldable pub cleanup : String → List Resource → S → Count
  cleanup run_id recorded s = run_then (delete_kind "floating-ip" run_id s) λ s.
      let l = c.list_by_tag "router" run_id s in
      and_then l.value l.err l.cloud λ routers s.
        run_then (detach_routers routers s)
          λ s. run_then (delete_kind "port" run_id s) (cleanup_networks run_id recorded routers)
