-- ===== src/Nova/Operations/Deletes.antt =====
-- What a delete of a volume or a port waits for (`deleteVolume`, `deletePort` of
-- internal/chaos/novagraph/graph.go).
use dizzy.Prelude.{ℕ, ◌≡◌, List, [], ◌∷◌}
use dizzy.Nova.Cloud.{
  Act, Answer, failed, answered, Done, Cloud, St, Op, perform, request, detach_volume, detach_port,
  wait_for_port_detached, wait_for_volume_detached, delete, wait_for_gone, wait_for_volume_status,
}
use dizzy.Nova.Cloud.Runs.{
  Outcome, Runs, Runs-handle, Runs-bind, Runs-on_error, Runs-not_found, with_retry-Runs,
}
use dizzy.Nova.Operations.{
  retried, detach, delete_gone, delete_volume, delete_port, status_volume_available,
}
use dizzy.Churn.State.{Resource}

-- The call was made and returned no error.
pub data Succeeded {E : Type 0} (a : Act) : List (Act × Answer E Done) → Type 0 where
  newest : {l : List (Act × Answer E Done)} → Succeeded a ((a, answered tt) ∷ l)
  older :
      {x : Act × Answer E Done} {l : List (Act × Answer E Done)}
      → Succeeded a l
      → Succeeded a (x ∷ l)

-- Each delete of the resource in the log stands after what makes it ready.
abbrev pub Guarded :
    {E : Type 0}
    → (List (Act × Answer E Done) → Type 0)
    → Resource
    → List (Act × Answer E Done)
    → Type 0
Guarded ready res [] = Unit
Guarded ready res ((a, o) ∷ l) = (a ≡ delete res → ready l) × Guarded ready res l

module _ (c : Cloud) (ready : List (Act × Answer c.E Done) → Type 0)
    (grows : (x : Act × Answer c.E Done) (l : List (Act × Answer c.E Done))
      → ready l
      → ready (x ∷ l))
    (res : Resource) where
  abbrev Safe : St c → Type 0
  Safe s = Guarded ready res s.log

  abbrev Open : St c → Type 0
  Open s = ready s.log × Safe s

  settle : (I : St c → Type 0) (a : Answer c.E Done) (s : St c) → I s → Outcome (λ _. I) I (a, s)
  settle I (failed e) s i = i
  settle I (answered v) s i = i

  pauses :
      (I : St c → Type 0)
      → ((w : c.World) (s : St c) → I s → I (record s { world = w }))
      → (b : ℕ) → Runs I (request c (c.pause b)) (λ _. I) I
  unfolding request
  pauses I moves b s i = settle I (c.pause b s.world).0 _ (moves _ s i)

  other-Safe : (a : Act) → (a ≡ delete res → ⊥) → Runs Safe (perform c a) (λ _. Safe) Safe
  unfolding perform
  other-Safe a apart s g =
      settle Safe (c.act a s.world).0 (perform c a s).1 (λ e. absurd (apart e), g)

  retried-Safe : (a : Act) → (a ≡ delete res → ⊥) → Runs Safe (retried c a) (λ _. Safe) Safe
  retried-Safe a apart =
      with_retry-Runs c Safe (λ _. Safe) (perform c a) (other-Safe a apart)
        (pauses Safe (λ w s i. i))

  detach-Safe : (a : Act) → (a ≡ delete res → ⊥) → Runs Safe (detach c a) (λ _. Safe) Safe
  unfolding detach
  detach-Safe a apart =
      Runs-on_error Safe Safe (λ _. Safe) Safe (retried c a) _ (retried-Safe a apart)
        (Runs-not_found c Safe)

  abbrev Log : Type 0
  Log = List (Act × Answer c.E Done)

  -- What the log also shows, and still shows when it is longer.
  module _ (shown : Log → Type 0)
      (stays : (x : Act × Answer c.E Done) (l : Log) → shown l → shown (x ∷ l)) where
    answer_outcome :
        (a : Act) (o : Answer c.E Done) (w : c.World) (l : Log)
        → Guarded ready res ((a, o) ∷ l)
        → shown l
        → Outcome
            (λ _ s. (shown s.log × Succeeded a s.log) × Safe s)
            Safe
            (o, record { world = w; log = (a, o) ∷ l })
    answer_outcome a (failed e) w l g k = g
    answer_outcome a (answered v) w l g k = ((stays _ l k, Succeeded.newest), g)

    waits-Succeeded :
        (a : Act)
        → (a ≡ delete res → ⊥)
        → Runs
            (λ s. shown s.log × Safe s)
            (perform c a)
            (λ _ s. (shown s.log × Succeeded a s.log) × Safe s)
            Safe
    unfolding perform
    waits-Succeeded a apart s (k, g) =
        answer_outcome a (c.act a s.world).0 (c.act a s.world).1 s.log (λ e. absurd (apart e), g) k

  any-Open : (a : Act) → Runs Open (perform c a) (λ _. Open) Open
  unfolding perform
  any-Open a s (r, g) =
      settle Open (c.act a s.world).0 (perform c a s).1 (grows _ s.log r, (λ _. r, g))

  -- An invariant that one after another weakens.
  weaken :
      (I J : St c → Type 0) (m : Op c)
      → ((s : St c) → I s → J s)
      → Runs I m (λ _. I) I
      → Runs I m (λ _. J) J
  weaken I J m k h s i = drop (m s).0 (m s).1 (h s i)
    where
      drop :
          (a : Answer c.E Done) (s : St c) → Outcome (λ _. I) I (a, s) → Outcome (λ _. J) J (a, s)
      drop (failed e) s o = k s o
      drop (answered v) s o = k s o

  Safe-after :
      (m : Op c) (w : c.World)
      → Runs Safe m (λ _. Safe) Safe
      → Safe (m (record { world = w; log = [] })).1
  Safe-after m w h =
      let (a, s) = m (record { world = w; log = [] }) in
      one a s (h (record { world = w; log = [] }) tt)
    where
      one : (a : Answer c.E Done) (s : St c) → Outcome (λ _. Safe) Safe (a, s) → Safe s
      one (failed e) s o = o
      one (answered v) s o = o

  delete_gone-Safe : Runs Open (delete_gone c res) (λ _. Safe) Safe
  delete_gone-Safe =
      weaken Open Safe (delete_gone c res) (λ s o. o.1)
        (unfold delete_gone in
          Runs-handle Open (λ _. Open) Open (λ _. Open) Open (retried c (delete res)) _ _
            (with_retry-Runs c Open (λ _. Open) (perform c (delete res)) (any-Open (delete res))
              (pauses Open (λ w s i. i)))
            (Runs-not_found c Open) (λ _. any-Open (wait_for_gone res)))

-- The waits of a volume's delete.
abbrev pub VolumeReady : {E : Type 0} → Resource → Resource → List (Act × Answer E Done) → Type 0
VolumeReady res server l =
    Succeeded (wait_for_volume_status res status_volume_available) l
    × Succeeded (wait_for_volume_detached server res) l

-- Whatever the cloud answers, the delete of a volume node calls for the volume's deletion only after
-- the wait for its status "available" and the wait for the end of its attachment have both ended
-- well.
pub delete_volume-Guarded :
    (c : Cloud) (res server : Resource) (w : c.World)
    → Guarded
        (VolumeReady res server)
        res
        (delete_volume c res server (record { world = w; log = [] })).1.log
unfolding delete_volume
delete_volume-Guarded c res server w =
    let available = wait_for_volume_status res status_volume_available in
    let gone = wait_for_volume_detached server res in
    let L : Type 0 = List (Act × Answer c.E Done) in
    let ready : L → Type 0 = VolumeReady res server in
    let G : St c → Type 0 = λ s. Guarded ready res s.log in
    let R : St c → Type 0 = λ s. (Unit × Succeeded available s.log) × G s in
    let grows : (x : Act × Answer c.E Done) (l : L) → ready l → ready (x ∷ l) =
      λ x l r. (Succeeded.older r.0, Succeeded.older r.1) in
    Safe-after c ready grows res (delete_volume c res server) w (
      Runs-bind G (λ _. G) (λ _. G) G (detach c (detach_volume server res)) _
        (detach-Safe c ready grows res (detach_volume server res) (λ e. cc e))
        (λ _.
          Runs-handle G (λ _. R) G (λ _. G) G (perform c available) _ _
            (λ s g.
              waits-Succeeded c ready grows res (λ _. Unit) (λ _ _ _. tt) available (λ e. cc e) s
                (tt, g))
            (Runs-not_found c G)
            (λ _.
              Runs-bind R (λ _ s. ((Unit × Succeeded available s.log) × Succeeded gone s.log) × G s)
                (λ _. G) G (perform c gone) (λ _. delete_gone c res)
                (waits-Succeeded c ready grows res (λ l. Unit × Succeeded available l)
                  (λ x l k. (tt, Succeeded.older k.1)) gone (λ e. cc e))
                (λ _ s o. delete_gone-Safe c ready grows res s ((o.0.0.1, o.0.1), o.1)))))

-- Whatever the cloud answers, the delete of a port node calls for the port's deletion only after
-- the wait for its detachment has ended well.
pub delete_port-Guarded :
    (c : Cloud) (res server : Resource) (w : c.World)
    → Guarded
        (Succeeded (wait_for_port_detached server res))
        res
        (delete_port c res server (record { world = w; log = [] })).1.log
unfolding delete_port
delete_port-Guarded c res server w =
    let gone = wait_for_port_detached server res in
    let L : Type 0 = List (Act × Answer c.E Done) in
    let ready : L → Type 0 = Succeeded gone in
    let G : St c → Type 0 = λ s. Guarded ready res s.log in
    let M : St c → Type 0 = λ s. (Unit × Succeeded gone s.log) × G s in
    let grows : (x : Act × Answer c.E Done) (l : L) → ready l → ready (x ∷ l) =
      λ x l r. Succeeded.older r in
    Safe-after c ready grows res (delete_port c res server) w (
      Runs-bind G (λ _. M) (λ _. G) G _ (λ _. delete_gone c res)
        (Runs-bind G (λ _. G) (λ _. M) G (detach c (detach_port server res)) (λ _. perform c gone)
          (detach-Safe c ready grows res (detach_port server res) (λ e. cc e))
          (λ _ s g.
            waits-Succeeded c ready grows res (λ _. Unit) (λ _ _ _. tt) gone (λ e. cc e) s (tt, g)))
        (λ _ s o. delete_gone-Safe c ready grows res s (o.0.1, o.1)))
