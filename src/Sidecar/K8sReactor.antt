-- ===== src/Sidecar/K8sReactor.antt =====
-- pkg/sidecar/k8s_reactor.go: the restriction of the routes of a cluster's container to what a
-- test may reach on the control network. The calls of netlink, of the cluster, with the wait for a
-- pod, and of the sync service are a record over an unknown state.
pub mod Restricted
pub mod Manage
use testground.Base.{
  ℕ, ◌-◌, ◌/◌, String, Bool, true, false, ◌&&◌, not, Option, none, some, List, [], ◌∷◌, ◌++◌,
  length, ◌==◌, str_eq, if◌then◌else◌,
}
use Prim.Native.Nat.{◌^◌}
use testground.Base.Maps.{Map, lookup}
use testground.Base.Errors.{Fallible, ok, err, panic, fail_if}
use testground.Base.Errors
use testground.Base.Actions.{Action, pure, raise, lift, ◌>>=◌, ◌>>◌}
use testground.Sidecar.{RouteKind, unspecified, blackhole}

-- net.IP; an address is its bits
pub data Address : Type 0 where
  nil_address : Address
  v4 v6 : ℕ → Address

-- net.IPNet, with the length of its prefix
pub record Subnet : Type 0 where
  pub ip : Address
  pub bits : ℕ

-- netlink.Route, by what the reactor uses of it
pub record LinkRoute : Type 0 where
  pub link_index : ℕ
  pub dst : Option Subnet
  pub src : Option Address
  pub gw : Address
  pub kind : RouteKind
  pub is_link_scope : Bool

abbrev pub host_of : Address → Subnet
host_of a = record { ip = a; bits = 32 }

abbrev same_address : Address → Address → Bool
same_address nil_address nil_address = true
same_address (v4 a) (v4 b) = a == b
same_address (v6 a) (v6 b) = a == b
same_address _ _ = false

-- whether `String()` of the two is the same
abbrev pub same_subnet : Subnet → Subnet → Bool
same_subnet s t = same_address s.ip t.ip && s.bits == t.bits

-- "100.96.0.0/11" and "100.64.0.0/10"
abbrev pub pod_cidr : Subnet
pod_cidr = record { ip = v4 1684013056; bits = 11 }

abbrev services_cidr : Subnet
services_cidr = record { ip = v4 1681915904; bits = 10 }

-- 100.64.0.10
abbrev pub kube_dns_cluster_ip : Address
kube_dns_cluster_ip = v4 1681915914

-- `IPNet.Contains`; addresses of different lengths never match
unfoldable pub contains_address : Subnet → Address → Bool
contains_address s (v4 a) = elim s.ip [
  | nil_address ↦ false
  | v4 b ↦ a / 2 ^ (32 - s.bits) == b / 2 ^ (32 - s.bits)
  | v6 b ↦ false
]
contains_address s (v6 a) = elim s.ip [
  | nil_address ↦ false
  | v4 b ↦ false
  | v6 b ↦ a / 2 ^ (128 - s.bits) == b / 2 ^ (128 - s.bits)
]
contains_address s nil_address = false

-- the calls of netlink, of the cluster and of the sync service
pub record Machine (W : Type 0) : Type 0 where
  pub wait_for_pod : String → Action W String (Unit {0})
  pub open_namespace : ℕ → Action W String (Unit {0})
  pub close_namespace : W → W
  pub open_handle : Action W String (Unit {0})
  pub delete_handle : W → W
  pub link_by_name : String → Action W String ℕ
  pub route_get : Address → Action W String (List LinkRoute)
  pub route_list : ℕ → Action W String (List LinkRoute)
  pub route_add : LinkRoute → Action W String (Unit {0})
  pub route_del : LinkRoute → Action W String (Unit {0})
  pub new_instance : Action W String (Unit {0})

abbrev pub service_route : LinkRoute → Address → LinkRoute
service_route r ip = record r { dst = some (host_of ip) }

abbrev pub is_default_route : LinkRoute → Bool
is_default_route r = elim r.dst [
  | some d ↦ false
  | none ↦ elim r.src [ some s ↦ false | none ↦ true ]
]

abbrev pub dns_route : LinkRoute → LinkRoute
dns_route r = record r { src = none; dst = some (host_of kube_dns_cluster_ip) }

abbrev pub gateway_route : LinkRoute → LinkRoute
gateway_route r = record {
  link_index = r.link_index;
  dst = some (host_of r.gw);
  src = none;
  gw = nil_address;
  kind = unspecified;
  is_link_scope = true;
}

abbrev pub blackhole_route : LinkRoute → LinkRoute
blackhole_route r = record {
  link_index = 0;
  dst = r.dst;
  src = none;
  gw = nil_address;
  kind = blackhole;
  is_link_scope = false;
}

abbrev pub is_services_route : LinkRoute → Bool
is_services_route r = elim r.dst [ none ↦ false | some d ↦ same_subnet d services_cidr ]

module _ {W : Type 0} (machine : Machine W) where
  open machine use {route_add, route_del}

  -- a call whose error is logged
  abbrev pub try_add : LinkRoute → W → W
  try_add r w = (route_add r w).1

  -- the routes to the services that a route covered
  unfoldable pub add_service_routes : LinkRoute → Subnet → List Address → W → W
  unfolding contains_address
  add_service_routes r d [] w = w
  add_service_routes r d (ip ∷ ips) w =
      add_service_routes r d ips
        (if contains_address d ip then try_add (service_route r ip) w else w)

  abbrev pub keep_services : List Address → LinkRoute → Option Subnet → W → W
  keep_services ips r none w = w
  keep_services ips r (some d) w =
      if same_subnet d pod_cidr then w else add_service_routes r d ips w

  -- the loop that marks the routes; each of them is to be deleted
  unfoldable pub mark_routes : List Address → List LinkRoute → W → List LinkRoute × W
  unfolding add_service_routes
  mark_routes ips [] w = ([], w)
  mark_routes ips (r ∷ rs) w =
      let (marked, w') = mark_routes ips rs (keep_services ips r r.dst w) in (r ∷ marked, w')

  -- the loop that adds the routes to the DNS
  unfoldable pub add_dns_routes : List LinkRoute → Action W String (Unit {0})
  add_dns_routes [] = pure tt
  add_dns_routes (r ∷ rs) =
      if is_default_route r then route_add (dns_route r) >> add_dns_routes rs else add_dns_routes rs

  -- the deletion of a route, and the blackhole in its place
  abbrev pub replace : LinkRoute → W → W
  replace r w = try_add (blackhole_route r) (route_del r w).1

  abbrev replace_and_go : LinkRoute → Action W String (Unit {0}) → Action W String (Unit {0})
  replace_and_go r rest w = rest (replace r w)

  -- the last loop; the first route to the services shows the gateway
  unfoldable pub replace_routes : Bool → List LinkRoute → Action W String (Unit {0})
  replace_routes added [] = pure tt
  replace_routes added (r ∷ rs) =
      let rest = replace_routes true rs in
      let further = replace_routes added rs in
      if not added && is_services_route r
      then route_add (gateway_route r) >> replace_and_go r rest
      else replace_and_go r further

  -- from the list of the control link's routes on
  unfoldable pub restrict_routes : List Address → List LinkRoute → Action W String (Unit {0})
  unfolding mark_routes add_dns_routes replace_routes
  restrict_routes ips routes w =
      let (marked, w') = mark_routes ips routes w in
      (add_dns_routes routes >> replace_routes false marked) w'
