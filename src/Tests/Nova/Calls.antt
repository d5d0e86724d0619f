-- ===== src/Tests/Nova/Calls.antt =====
-- Concrete clouds for the operations of the Nova churn graphs (internal/chaos/novagraph/graph.go).
use dizzy.Prelude.{
  ℕ, ◌≡◌, refl, Bool, true, false, String, str_eq, if◌then◌else◌, if_cases, pos, [], ◌==◌,
}
use dizzy.Nova.Plan.{Volume}
use dizzy.Nova.Cloud.{
  Act, Answer, failed, answered, Done, Cloud, perform, retry_from, with_retry, ◌>>=◌, on_error,
  fail, resize_server, attach_volume, detach_volume, wait_for_volume_detached,
}
use dizzy.Nova.Operations.{delete_volume, detach, resize, confirm_resize, server_ref}
use dizzy.Nova.Operations.Deletes.{Guarded, VolumeReady, delete_volume-Guarded}
use dizzy.Nova.Mutations.{flip_after, target, toggle, resize_step, volume_toggle, volume_detach}
use dizzy.Nova.Mutations.Flavor.{Resizes, current, resize_step-Tells}
use dizzy.Nova.Mutations.Attached.{VolumeLaws, volume_toggle-Tells}
use dizzy.Churn.State.{Resource, no_resource}
use dizzy.Tests.Nova.{resolved}

-- A cloud of one server, whose state is the server's flavor. An error is an HTTP status; a resize
-- to the flavor that the server has is refused.
abbrev resizing : Act → String → Answer ℕ Done × String
resizing (resize_server res f) w = if str_eq f w then (failed 400, w) else (answered tt, f)
resizing _ w = (answered tt, w)

abbrev of_flavors : Cloud
of_flavors = record {
  World = String;
  E = ℕ;
  is_quota = λ e. e == 413;
  is_retryable = λ e. e == 503;
  is_not_found = λ e. e == 404;
  is_same_flavor = λ e. e == 400;
  create = λ call w. (failed 403, w);
  act = resizing;
  list_network_servers = λ id w. (answered [], w);
  pause = λ b w. (answered tt, w);
}

server : Resource
server = record no_resource { kind = "server"; logical = "srv-0001"; id = "s" }

-- The flag says that the server has the boot flavor, and it has the resize flavor.
resized_other_way :
    resize_step of_flavors resolved server false (record { world = "large"; log = [] }) ≡ (
      (answered tt, false),
      (resize_step of_flavors resolved server false (record { world = "large"; log = [] })).1,
    )
unfolding resize_step resize confirm_resize target flip_after with_retry retry_from ◌>>=◌ on_error
    perform fail
resized_other_way = refl

resize_step-Tells_example :
    Resizes
      (resize_step of_flavors resolved server false (record { world = "large"; log = [] })).1.log
      (current resolved
        (resize_step of_flavors resolved server false (record { world = "large"; log = [] })).0.1)
resize_step-Tells_example =
    resize_step-Tells of_flavors server resolved false (record { world = "large"; log = [] })
      (rw resized_other_way refl)

-- A cloud of one volume, whose state is whether it is attached.
abbrev attaching : Act → Bool → Answer ℕ Done × Bool
attaching (attach_volume _ _) w = (answered tt, true)
attaching (detach_volume _ _) w = (answered tt, false)
attaching (wait_for_volume_detached _ _) w = if w then (failed 504, w) else (answered tt, w)
attaching _ w = (answered tt, w)

abbrev of_volumes : Cloud
of_volumes = record {
  World = Bool;
  E = ℕ;
  is_quota = λ e. e == 413;
  is_retryable = λ e. e == 503;
  is_not_found = λ e. e == 404;
  is_same_flavor = λ e. e == 400;
  create = λ call w. (failed 403, w);
  act = attaching;
  list_network_servers = λ id w. (answered [], w);
  pause = λ b w. (answered tt, w);
}

abbrev volume : Volume
volume = record { name = "vol-0001"; size_gib = pos 1; server = "srv-0001"; detach = true }

of_volumes-VolumeLaws :
    VolumeLaws of_volumes (λ w. w) (server_ref "srv-0001" (λ _. "s")) no_resource
of_volumes-VolumeLaws = record {
  attaches = λ w h. refl;
  detached = λ w.
      if_cases (λ (x : Answer ℕ Done × Bool). x.0 ≡ answered tt → x.1 ≡ false) w (λ _ h. cc h)
        (λ e _. e);
  stays = λ w h. refl;
}

volume_toggle-Tells_example :
    (volume_toggle of_volumes volume
      (λ _. "s")
      no_resource
      true
      (record { world = true; log = [] })).1.world
    ≡ (volume_toggle of_volumes volume
        (λ _. "s")
        no_resource
        true
        (record { world = true; log = [] })).0.1
unfolding volume_toggle toggle flip_after volume_detach detach with_retry retry_from ◌>>=◌ on_error
    perform
volume_toggle-Tells_example =
    volume_toggle-Tells of_volumes (λ w. w) volume (λ _. "s") no_resource of_volumes-VolumeLaws true
      (record { world = true; log = [] }) refl

delete_volume-Guarded_example :
    Guarded
      (VolumeReady server no_resource)
      server
      (delete_volume of_volumes server no_resource (record { world = true; log = [] })).1.log
delete_volume-Guarded_example = delete_volume-Guarded of_volumes server no_resource true
