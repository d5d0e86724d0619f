-- ===== src/Nova/Mutations/Attached.antt =====
-- The attachment of a kept volume or port (`toggle` of internal/chaos/novagraph/graph.go).
use dizzy.Prelude.{String, ◌≡◌, ◌∙◌, Bool, true, false, not}
use dizzy.Nova.Plan.{Volume, Port}
use dizzy.Nova.Cloud.{
  Answer, failed, answered, Done, Cloud, St, Op, perform, attach_volume, attach_port,
  wait_for_volume_detached, wait_for_port_detached, wait_for_volume_status,
}
use dizzy.Nova.Cloud.Triple.{Triple, Always, Triple-bind, with_retry-Triple}
use dizzy.Nova.Operations.{Ids, server_ref, retried, status_volume_in_use}
use dizzy.Nova.Mutations.{
  flip_after, toggle, volume_detach, volume_attach, volume_toggle, port_detach, port_attach,
  port_toggle,
}
use dizzy.Churn.State.{Resource}

-- What is known of an attachment of a volume: an accepted attach makes it, the wait for its end
-- ends well only once it is gone, and the wait for in-use leaves it.
pub record VolumeLaws (c : Cloud) (attached : c.World → Bool) (server res : Resource) : Type 0 where
  pub attaches :
      (w : c.World)
      → (c.act (attach_volume server res) w).0 ≡ answered tt
      → attached (c.act (attach_volume server res) w).1 ≡ true
  pub detached :
      (w : c.World)
      → (c.act (wait_for_volume_detached server res) w).0 ≡ answered tt
      → attached (c.act (wait_for_volume_detached server res) w).1 ≡ false
  pub stays :
      (w : c.World)
      → (c.act (wait_for_volume_status res status_volume_in_use) w).0 ≡ answered tt
      → attached (c.act (wait_for_volume_status res status_volume_in_use) w).1 ≡ attached w

-- The same of a port, whose attach is not waited for.
pub record PortLaws (c : Cloud) (attached : c.World → Bool) (server res : Resource) : Type 0 where
  pub attaches :
      (w : c.World)
      → (c.act (attach_port server res) w).0 ≡ answered tt
      → attached (c.act (attach_port server res) w).1 ≡ true
  pub detached :
      (w : c.World)
      → (c.act (wait_for_port_detached server res) w).0 ≡ answered tt
      → attached (c.act (wait_for_port_detached server res) w).1 ≡ false

module _ (c : Cloud) (attached : c.World → Bool) where
  abbrev Is : Bool → St c → Type 0
  Is b s = attached s.world ≡ b

  -- Where the toggle ends well, its flag tells the attachment.
  abbrev Tells : (Answer c.E Done × Bool) × St c → Type 0
  Tells out = out.0.0 ≡ answered tt → Is out.0.1 out.1

  answer-Tells :
      (flag : Bool) (a : Answer c.E Done) (s : St c)
      → (a ≡ answered tt → Is (not flag) s)
      → Tells (elim a [ failed e ↦ (failed e, flag) | answered _ ↦ (answered tt, not flag) ], s)
  answer-Tells flag (failed e) s h q = cc
  answer-Tells flag (answered v) s h q = h q

  toggle-Tells :
      (take_off put_on : Resource → Resource → Op c) (server : String) (ids : Ids) (res : Resource)
      → Triple Always (take_off (server_ref server ids) res) (λ _. Is false)
      → Triple Always (put_on (server_ref server ids) res) (λ _. Is true)
      → (flag : Bool) (s : St c) → Tells (toggle c take_off put_on server ids res flag s)
  unfolding toggle flip_after
  toggle-Tells take_off put_on server ids res off on true s =
      let out = take_off (server_ref server ids) res s in
      answer-Tells true out.0 out.1 (off s tt tt)
  toggle-Tells take_off put_on server ids res off on false s =
      let out = put_on (server_ref server ids) res s in answer-Tells false out.0 out.1 (on s tt tt)

  -- Where the cloud reports attachments as documented, a toggle of a kept volume that returns no
  -- error leaves the volume attached to its server exactly where the toggle's flag then says so,
  -- whatever they were before.
  pub volume_toggle-Tells :
      (v : Volume) (ids : Ids) (res : Resource)
      → VolumeLaws c attached (server_ref v.server ids) res
      → (flag : Bool) (s : St c)
      → let out = volume_toggle c v ids res flag s in
        out.0.0 ≡ answered tt → attached out.1.world ≡ out.0.1
  unfolding volume_toggle
  volume_toggle-Tells v ids res laws =
      let server = server_ref v.server ids in
      toggle-Tells (volume_detach c) (volume_attach c) v.server ids res
        (unfold volume_detach in
          Triple-bind Always (λ _. Always) (λ _. Is false) _
            (λ _. perform c (wait_for_volume_detached server res)) (λ s p u e. tt)
            (λ _ s p u e. unfold perform in laws.detached s.world e))
        (unfold volume_attach in
          Triple-bind Always (λ _. Is true) (λ _. Is true) (retried c (attach_volume server res)) _
            (with_retry-Triple c Always (λ _. Is true) (perform c (attach_volume server res))
              (λ s p u e. unfold perform in laws.attaches s.world e) (λ s p. tt) (λ b s p. tt))
            (λ _ s p u e. unfold perform in laws.stays s.world e ∙ p))

  -- The same of a port.
  pub port_toggle-Tells :
      (pt : Port) (ids : Ids) (res : Resource)
      → PortLaws c attached (server_ref pt.server ids) res
      → (flag : Bool) (s : St c)
      → let out = port_toggle c pt ids res flag s in
        out.0.0 ≡ answered tt → attached out.1.world ≡ out.0.1
  unfolding port_toggle
  port_toggle-Tells pt ids res laws =
      let server = server_ref pt.server ids in
      toggle-Tells (port_detach c) (port_attach c) pt.server ids res
        (unfold port_detach in
          Triple-bind Always (λ _. Always) (λ _. Is false) _
            (λ _. perform c (wait_for_port_detached server res)) (λ s p u e. tt)
            (λ _ s p u e. unfold perform in laws.detached s.world e))
        (unfold port_attach in
          with_retry-Triple c Always (λ _. Is true) (perform c (attach_port server res))
            (λ s p u e. unfold perform in laws.attaches s.world e) (λ s p. tt) (λ b s p. tt))
