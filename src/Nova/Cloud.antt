-- ===== src/Nova/Cloud.antt =====
-- The cloud behind the Nova churn graph (the interface `Nova` of internal/chaos/novagraph/graph.go)
-- and `WithRetry` of internal/nova/executor/executor.go. The client's calls are a parameter, and
-- the state keeps the outcomes of those that change or await something, newest first.
pub mod Triple
pub mod Runs
use dizzy.Prelude.{ℕ, zero, suc, ◌*◌, ◌-◌, Bool, not, ◌||◌, if◌then◌else◌, ltb, String, List, ◌∷◌}
use dizzy.Nova.Plan.{ServerGroup, Network, Server, Volume, Port}
use dizzy.Churn.State.{Resource}

pub record BootSpec : Type 0 where
  pub image_id : String
  pub flavor_id : String
  pub network_ids : List String
  pub group_id : String

-- The calls that answer with the created resource.
pub data Create : Type 0 where
  create_server_group : ServerGroup → Create
  create_network : Network → Create
  create_server : Server → BootSpec → Create
  create_volume : Volume → Create
  create_port : Port → String → Create

-- The calls that answer with an error or nothing that is used.
pub data Act : Type 0 where
  create_subnet : Network → String → Act
  delete_network_ports : String → Act
  stop_server start_server reboot_server_hard confirm_resize_server : Resource → Act
  resize_server : Resource → String → Act
  live_migrate_server cold_migrate_server : Resource → Act
  attach_volume detach_volume attach_port detach_port : Resource → Resource → Act
  wait_for_port_detached wait_for_volume_detached : Resource → Resource → Act
  delete wait_for_ready wait_for_gone : Resource → Act
  wait_for_server_status wait_for_volume_status : Resource → String → Act

-- A value or Go's `error`.
pub data Answer (E A : Type 0) : Type 0 where
  failed : E → Answer E A
  answered : A → Answer E A

-- A step on a state that returns a value or an error.
abbrev pub Exec : Type 0 → Type 0 → Type 0 → Type 0
Exec S E A = S → Answer E A × S

module _ {S E A : Type 0} where
  -- The rest runs where there was no error; an error is returned as it is.
  infixl 5 ◌>>=◌
  unfoldable pub ◌>>=◌ : {B : Type 0} → Exec S E A → (A → Exec S E B) → Exec S E B
  ◌>>=◌ m f s = let (a, s') = m s in elim a [ failed e ↦ (failed e, s') | answered v ↦ f v s' ]

  -- What an error is followed by.
  unfoldable pub on_error : Exec S E A → (E → Exec S E A) → Exec S E A
  on_error m f s = let (a, s') = m s in elim a [ failed e ↦ f e s' | answered v ↦ (answered v, s') ]

  -- What an error, and what a value, is followed by.
  unfoldable pub handle :
      {B : Type 0} → Exec S E A → (E → Exec S E B) → (A → Exec S E B) → Exec S E B
  handle m f g s = let (a, s') = m s in elim a [ failed e ↦ f e s' | answered v ↦ g v s' ]

  unfoldable pub fail : E → Exec S E A
  fail e s = (failed e, s)

infixl 5 ◌>>◌
abbrev pub ◌>>◌ : {S E A B : Type 0} → Exec S E A → Exec S E B → Exec S E B
m >> n = m >>= (λ _. n)

abbrev pub Done : Type 0
Done = Unit

-- `pause b` fails with `ctx.Err()` where the run is cancelled within the wait of `b` milliseconds.
pub record Cloud : Type 1 where
  pub World : Type 0
  pub E : Type 0
  pub is_quota : E → Bool
  pub is_retryable : E → Bool
  pub is_not_found : E → Bool
  pub is_same_flavor : E → Bool
  pub create : Create → World → Answer E Resource × World
  pub act : Act → World → Answer E Done × World
  pub list_network_servers : String → World → Answer E (List Resource) × World
  pub pause : ℕ → World → Answer E Done × World

-- In milliseconds.
abbrev pub retry_base_delay : ℕ
retry_base_delay = 250

abbrev pub retry_max_delay : ℕ
retry_max_delay = 5000

abbrev pub max_attempts : ℕ
max_attempts = 5

abbrev pub next_backoff : ℕ → ℕ
next_backoff b = if ltb retry_max_delay (b * 2) then retry_max_delay else b * 2

pub record State (World E : Type 0) : Type 0 where
  pub world : World
  pub log : List (Act × Answer E Done)

module _ (c : Cloud) where
  abbrev pub St : Type 0
  St = State c.World c.E

  abbrev pub Get : Type 0 → Type 0
  Get A = Exec St c.E A

  -- What returns only an `error`.
  abbrev pub Op : Type 0
  Op = Get Done

  unfoldable pub done : Op
  done s = (answered tt, s)

  unfoldable pub perform : Act → Op
  perform a s = let (e, w) = c.act a s.world in (e, record { world = w; log = (a, e) ∷ s.log })

  unfoldable pub request : {A : Type 0} → (c.World → Answer c.E A × c.World) → Get A
  request f s = let (a, w) = f s.world in (a, record s { world = w })

  unfoldable pub when_not_found : {A : Type 0} → Get A → c.E → Get A
  when_not_found m e = if c.is_not_found e then m else fail e

  -- The loop of `WithRetry`, with so many attempts left after this one: the error is returned where
  -- it is of quota, not retryable, or of the last attempt.
  unfoldable pub retry_from : {A : Type 0} → ℕ → ℕ → Get A → Get A
  unfolding fail request
  retry_from zero backoff fn = fn
  retry_from (suc left) backoff fn =
      let rest = retry_from left (next_backoff backoff) fn in
      on_error fn (λ e.
        if c.is_quota e || not (c.is_retryable e)
        then fail e
        else request (c.pause backoff) >> rest)

  unfoldable pub with_retry : {A : Type 0} → Get A → Get A
  unfolding retry_from
  with_retry fn = retry_from (max_attempts - 1) retry_base_delay fn
