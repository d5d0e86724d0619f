-- ===== src/Nova/Mutations/Flavor.antt =====
-- The flavor that a kept server was last resized to (`serverMutation` of internal/chaos/novagraph/graph.go).
use dizzy.Prelude.{
  ◌≡◌, refl, subst, Bool, true, false, not, if◌then◌else◌, String, Option, none, some, List, [],
  ◌∷◌, if_both,
}
use dizzy.Nova.Graph.{Resolved}
use dizzy.Nova.Cloud.{
  Act, Answer, failed, answered, Done, Cloud, St, perform, request, resize_server,
  confirm_resize_server, wait_for_server_status,
}
use dizzy.Nova.Cloud.Triple.{Triple, Always, Triple-bind, with_retry-Triple}
use dizzy.Nova.Operations.{
  retried, resize, confirm_resize, status_server_active, status_server_verify_resize,
}
use dizzy.Nova.Mutations.{flip_after, target, resize_step}
use dizzy.Churn.State.{Resource}

-- The flavor that the latest resize request in the log asks for; the latest call comes first.
abbrev pub asked : {E : Type 0} → List (Act × Answer E Done) → Option String
asked [] = none
asked ((resize_server res f, a) ∷ log) = some f
asked ((_, a) ∷ log) = asked log

-- A confirmation has succeeded since the latest resize request.
abbrev pub confirmed : {E : Type 0} → List (Act × Answer E Done) → Bool
confirmed [] = false
confirmed ((resize_server res f, a) ∷ log) = false
confirmed ((confirm_resize_server res, answered _) ∷ log) = true
confirmed ((_, a) ∷ log) = confirmed log

-- The latest resize request asks for the flavor and is confirmed.
abbrev pub Resizes : {E : Type 0} → List (Act × Answer E Done) → String → Type 0
Resizes log f = (asked log ≡ some f) × (confirmed log ≡ true)

-- The flavor that the flag stands for.
abbrev pub current : Resolved → Bool → String
current r resized = if resized then r.resize_flavor_id else r.flavor_id

target-current : (c : Cloud) (r : Resolved) (flag : Bool) → target c r flag ≡ current r (not flag)
unfolding target
target-current c r true = refl
target-current c r false = refl

module _ (c : Cloud) (res : Resource) where
  abbrev Asked : String → St c → Type 0
  Asked f s = asked s.log ≡ some f

  abbrev Moved : String → St c → Type 0
  Moved f s = Resizes s.log f

  resize-Triple : (f : String) → Triple Always (resize c res f) (λ _. Moved f)
  unfolding resize confirm_resize
  resize-Triple f =
      let set : Triple Always (retried c (resize_server res f)) (λ _. Asked f) =
        with_retry-Triple c Always (λ _. Asked f) (perform c (resize_server res f))
          (λ s p v e. unfold perform in refl) (λ s p. tt) (λ b s p. tt) in
      let confirm : Triple (Asked f) (retried c (confirm_resize_server res)) (λ _. Moved f) =
        with_retry-Triple c (Asked f) (λ _. Moved f) (perform c (confirm_resize_server res))
          (λ s p v e. unfold perform in (p, rw e refl)) (λ s p. unfold perform in p)
          (λ b s p. unfold request in p) in
      let verify : Triple (Asked f)
          (perform c (wait_for_server_status res status_server_verify_resize)) (λ _. Asked f) =
        λ s p v e. unfold perform in p in
      let active : Triple (Moved f) (perform c (wait_for_server_status res status_server_active))
          (λ _. Moved f) =
        λ s p v e. unfold perform in p in
      Triple-bind Always (λ _. Asked f) (λ _. Moved f) (retried c (resize_server res f)) _ set
        (λ _.
          Triple-bind (Asked f) (λ _. Moved f) (λ _. Moved f) _
            (λ _. perform c (wait_for_server_status res status_server_active))
            (Triple-bind (Asked f) (λ _. Asked f) (λ _. Moved f)
              (perform c (wait_for_server_status res status_server_verify_resize)) _ verify
              (λ _. confirm))
            (λ _. active))

  -- Where the step ends well, the flag stands for the flavor of the latest resize, which is confirmed.
  abbrev Tells : Resolved → (Answer c.E Done × Bool) × St c → Type 0
  Tells r out = out.0.0 ≡ answered tt → Moved (current r out.0.1) out.1

  answer-Tells :
      (r : Resolved) (flag : Bool) (a : Answer c.E Done) (s : St c)
      → (a ≡ answered tt → Moved (target c r flag) s)
      → Tells r (elim a [ failed e ↦ (failed e, flag) | answered _ ↦ (answered tt, not flag) ], s)
  answer-Tells r flag (failed e) s h q = cc
  answer-Tells r flag (answered v) s h q = subst (λ f. Moved f s) (target-current c r flag) (h q)

  flip_after-Tells :
      (r : Resolved) (flag : Bool) (s : St c)
      → Tells r (flip_after c (resize c res (target c r flag)) flag s)
  unfolding flip_after
  flip_after-Tells r flag s =
      answer-Tells r flag (resize c res (target c r flag) s).0 (resize c res (target c r flag) s).1
        (resize-Triple (target c r flag) s tt tt)

  step-Tells :
      (r : Resolved) (flag : Bool) (a : Answer c.E Done) (s : St c)
      → (a ≡ answered tt → Moved (target c r flag) s)
      → let other = flip_after c (resize c res (target c r (not flag))) (not flag) s in
        Tells r (elim a [
          | answered _ ↦ ((answered tt, not flag), s)
          | failed e ↦ if c.is_same_flavor e then other else ((failed e, flag), s)
        ])
  step-Tells r flag (answered v) s h q = subst (λ f. Moved f s) (target-current c r flag) (h q)
  step-Tells r flag (failed e) s h q =
      if_both (Tells r) (c.is_same_flavor e) (flip_after-Tells r (not flag) s) (λ q. cc) q

  -- A resize mutation of a kept server that returns no error leaves the flag on the side of its
  -- latest resize request, on any cloud and whatever the flag was before: that request asked for
  -- the resize flavor where the flag is then set, and for the boot flavor where it is not, also
  -- where the cloud refused the first flavor as the one that the server already has; and a
  -- confirmation has succeeded after it.
  pub resize_step-Tells :
      (r : Resolved) (resized : Bool) (s : St c)
      → let out = resize_step c r res resized s in
        out.0.0 ≡ answered tt → Resizes out.1.log (current r out.0.1)
  unfolding resize_step
  resize_step-Tells r flag s =
      step-Tells r flag (resize c res (target c r flag) s).0 (resize c res (target c r flag) s).1
        (resize-Triple (target c r flag) s tt tt)
