-- ===== src/Nova/Operations.antt =====
-- What the closures of the Nova churn graph's nodes do (internal/chaos/novagraph/graph.go). The
-- bound of a call or a wait by `opTimeout`, a part of the cloud's answer, is not modelled, nor are
-- the log lines.
pub mod Deletes
use dizzy.Prelude.{
  Bool, true, false, not, ◌&&◌, ◌||◌, if◌then◌else◌, String, str_eq, has, Option, none, some, List,
  [], ◌∷◌, ◌++◌, map, length,
}
use dizzy.Nova.Plan.{ServerGroup, Network, Server, Volume, Port, stop_start_soft, stop_start_hard}
use dizzy.Nova.Graph.{Resolved, kind_server}
use dizzy.Nova.Cloud.{
  BootSpec, Create, Act, Answer, failed, answered, Done, Cloud, St, Get, Op, done, perform, request,
  ◌>>=◌, ◌>>◌, on_error, handle, fail, when_not_found, with_retry, create_server_group,
  create_network, create_server, create_volume, create_port, create_subnet, delete_network_ports,
  stop_server, start_server, reboot_server_hard, confirm_resize_server, resize_server,
  live_migrate_server, cold_migrate_server, attach_volume, detach_volume, attach_port, detach_port,
  wait_for_port_detached, wait_for_volume_detached, delete, wait_for_ready, wait_for_gone,
  wait_for_server_status, wait_for_volume_status,
}
use dizzy.Churn.State.{Resource, no_resource}

abbrev pub status_server_active : String
status_server_active = "ACTIVE"

abbrev pub status_server_shutoff : String
status_server_shutoff = "SHUTOFF"

abbrev pub status_server_verify_resize : String
status_server_verify_resize = "VERIFY_RESIZE"

abbrev pub status_volume_available : String
status_volume_available = "available"

abbrev pub status_volume_in_use : String
status_volume_in_use = "in-use"

-- The ids of a node's parents, by their logical names; a missing one reads as empty.
abbrev pub Ids : Type 0
Ids = String → String

abbrev pub server_ref : String → Ids → Resource
server_ref name ids = record no_resource { kind = kind_server; logical = name; id = ids name }

-- What a create returns: the resource, which may stand beside an error, and the error.
pub record Made (E : Type 0) : Type 0 where
  pub resource : Resource
  pub err : Option E

module _ (c : Cloud) where
  abbrev pub retried : Act → Op c
  retried a = with_retry c (perform c a)

  unfoldable pub create_retry : Create → Get c Resource
  create_retry call = with_retry c (request c (c.create call))

  abbrev pub Making : Type 0
  Making = St c → Made c.E × St c

  -- The created resource is returned with the error of what follows its create.
  unfoldable pub make : Create → (Resource → Op c) → Making
  unfolding create_retry
  make call follow s =
      let (a, s1) = create_retry call s in
      let rest : Resource → Made c.E × St c = λ res.
        let (e, s2) = follow res s1 in
        (
          elim e [
            | failed x ↦ record { resource = res; err = some x }
            | answered _ ↦ record { resource = res; err = none }
          ],
          s2,
        ) in
      elim a [
        | failed x ↦ (record { resource = no_resource; err = some x }, s1)
        | answered res ↦ rest res
      ]

  unfoldable pub make_server_group : ServerGroup → Making
  make_server_group g = make (create_server_group g) (λ _. done c)

  unfoldable pub make_network : Network → Making
  make_network n =
      make (create_network n)
        (λ net. perform c (wait_for_ready net) >> retried (create_subnet n net.id))

  unfoldable pub boot_spec : Resolved → Server → Ids → BootSpec
  boot_spec r s ids = record {
    image_id = r.image_id;
    flavor_id = r.flavor_id;
    network_ids = map ids s.networks;
    group_id = if has s.group then ids s.group else "";
  }

  unfoldable pub make_server : Resolved → Server → Ids → Making
  unfolding boot_spec
  make_server r s ids =
      make (create_server s (boot_spec r s ids))
        (λ res. perform c (wait_for_server_status res status_server_active))

  unfoldable pub stop_start : Resource → String → Op c
  stop_start res variant =
      if str_eq variant stop_start_soft
      then retried (stop_server res)
        >> perform c (wait_for_server_status res status_server_shutoff)
        >> retried (start_server res)
        >> perform c (wait_for_server_status res status_server_active)
      else if str_eq variant stop_start_hard
      then retried (reboot_server_hard res)
        >> perform c (wait_for_server_status res status_server_active)
      else done c

  unfoldable pub confirm_resize : Resource → Op c
  confirm_resize res =
      perform c (wait_for_server_status res status_server_verify_resize)
      >> retried (confirm_resize_server res)
      >> perform c (wait_for_server_status res status_server_active)

  unfoldable pub resize : Resource → String → Op c
  unfolding confirm_resize
  resize res flavor_id = retried (resize_server res flavor_id) >> confirm_resize res

  unfoldable pub live_migrate : Resource → Op c
  live_migrate res =
      retried (live_migrate_server res)
      >> perform c (wait_for_server_status res status_server_active)

  unfoldable pub cold_migrate : Resource → Op c
  unfolding confirm_resize
  cold_migrate res = retried (cold_migrate_server res) >> confirm_resize res

  unfoldable pub mutate_server : Resolved → Server → Resource → Op c
  unfolding stop_start resize live_migrate
  mutate_server r s res =
      stop_start res s.stop_start
      >> (if s.resize then resize res r.resize_flavor_id else done c)
      >> (if s.live_migrate && r.live_migration then live_migrate res else done c)

  -- A 404 counts as detached.
  unfoldable pub detach : Act → Op c
  detach a = on_error (retried a) (when_not_found c (done c))

  unfoldable pub make_volume : Volume → Resource → Making
  make_volume v server = make (create_volume v) (λ res.
      perform c (wait_for_volume_status res status_volume_available)
      >> retried (attach_volume server res)
      >> perform c (wait_for_volume_status res status_volume_in_use))

  -- A resource that is already gone is not waited for.
  unfoldable pub delete_gone : Resource → Op c
  delete_gone res =
      handle (retried (delete res)) (when_not_found c (done c)) (λ _. perform c (wait_for_gone res))

  unfoldable pub delete_volume : Resource → Resource → Op c
  unfolding detach delete_gone
  delete_volume res server =
      detach (detach_volume server res)
      >> handle (perform c (wait_for_volume_status res status_volume_available))
          (when_not_found c (done c))
          (λ _. perform c (wait_for_volume_detached server res) >> delete_gone res)

  unfoldable pub make_port : Port → String → Resource → Making
  make_port pt network_id server =
      make (create_port pt network_id) (λ res. retried (attach_port server res))

  unfoldable pub delete_port : Resource → Resource → Op c
  unfolding detach delete_gone
  delete_port res server =
      detach (detach_port server res)
      >> perform c (wait_for_port_detached server res)
      >> delete_gone res

  unfoldable pub delete_all : List Resource → Op c
  unfolding delete_gone
  delete_all [] = done c
  delete_all (srv ∷ held) = delete_gone srv >> delete_all held

  unfoldable pub delete_network_servers : Resource → Op c
  unfolding delete_all
  delete_network_servers network =
      with_retry c (request c (c.list_network_servers network.id)) >>= delete_all

  -- The `Delete` of a network node.
  unfoldable pub delete_network : Resource → Op c
  unfolding delete_network_servers delete_gone
  delete_network res =
      delete_network_servers res >> perform c (delete_network_ports res.id) >> delete_gone res
