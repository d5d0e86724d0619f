-- ===== src/Octavia/Plan/Servable.antt =====
-- What `Validate` of internal/octavia/plan/plan.go establishes.
use dizzy.Prelude.{◌≡◌, [], valid, >>-valid, each_after, each_after-valid}
use dizzy.Octavia.Plan.{
  Plan, Parsing, check_load_balancer, check_listener, check_pool, check_health_monitor,
  check_member, validate,
}
use dizzy.Octavia.Plan.Fits.{
  LoadBalancerFits, ListenerFits, PoolFits, MonitorFits, NetworkFits, MemberFits, IsServable,
}
use dizzy.Octavia.Plan.Lookup.{Reaches}
use dizzy.Octavia.Plan.Entries.{
  load_balancer-Fits, listener-Fits, pool-Fits, monitor-Fits, network-Fits,
}
use dizzy.Octavia.Plan.Members.{member-Fits}

-- A plan that passes `Validate` is servable: names and subnet names are set and distinct, every
-- network has an IPv4 /24, every reference resolves, listeners and members have a TCP port, no two
-- listeners of a load balancer share one, no listener has two pools and no pool two health monitors,
-- every member is named for its pool with a number from 1, and has an IPv4 address of the upper half
-- of the CIDR of its network, which no other member of that network has. A member's network is that
-- of the load balancer of the listener of its pool.
pub validate-IsServable : (p : Plan) (net : Parsing) → validate p net ≡ valid → IsServable net p
unfolding validate
validate-IsServable p net h =
    let e5 = (>>-valid _ (each_after (check_health_monitor p) [] p.health_monitors)).0 h in
    let e4 = (>>-valid _ (each_after (check_member p net) [] p.members)).0 e5.0 in
    let e3 = (>>-valid _ (each_after (check_pool p) [] p.pools)).0 e4.0 in
    let e2 = (>>-valid _ (each_after (check_listener p) [] p.listeners)).0 e3.0 in
    let e1 = (>>-valid _ (each_after (check_load_balancer p) [] p.load_balancers)).0 e2.0 in
    let lbs =
      each_after-valid (LoadBalancerFits p) _ (load_balancer-Fits p) [] p.load_balancers e1.1 in
    let listeners = each_after-valid (ListenerFits p) _ (listener-Fits p) [] p.listeners e2.1 in
    let pools = each_after-valid (PoolFits p) _ (pool-Fits p) [] p.pools e3.1 in
    let reaches : Reaches p = record {
      load_balancers = lbs;
      listeners = listeners;
      pools = pools;
    } in
    record {
      networks = each_after-valid (NetworkFits net p) _ (network-Fits p net) [] p.networks e1.0;
      load_balancers = lbs;
      listeners = listeners;
      pools = pools;
      members = each_after-valid (MemberFits net p) _ (member-Fits p net reaches) [] p.members e4.1;
      health_monitors =
          each_after-valid (MonitorFits p) _ (monitor-Fits p) [] p.health_monitors e5.1;
    }
