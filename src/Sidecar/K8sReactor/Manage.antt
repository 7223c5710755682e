-- ===== src/Sidecar/K8sReactor/Manage.antt =====
-- What the reactor of a cluster does around the restriction of a container's routes: which
-- containers it manages, and which services it allows.
use testground.Base.{
  ℕ, String, Bool, true, false, not, Option, none, some, List, [], ◌∷◌, str_eq, if◌then◌else◌,
}
use testground.Base.Maps.{Map, lookup}
use testground.Base.Errors.{Fallible, ok, err, panic, fail_if}
use testground.Base.Errors
use testground.Base.Actions.{Action, pure, lift, ◌>>=◌, ◌>>◌}
use testground.Sidecar.K8sReactor.{Address, Subnet, LinkRoute, Machine, restrict_routes}

-- the reactor: the runs whose services were resolved, and the services' addresses
pub record K8sReactor (Cache : Type 0) : Type 0 where
  pub runids_cache : Cache
  pub allowed_services : List (String × Address)

-- an lru.Cache, the values of the environment, and the resolver
pub record Resolver (Cache : Type 0) : Type 0 where
  pub contains : String → Cache → Bool
  pub add : String → Cache → Cache
  pub touch : String → Cache → Cache  -- a hit makes an entry the most recent
  pub sync_service_host : String
  pub influxdb_host : String
  pub resolve : String → Option Address

module _ {Cache : Type 0} (resolver : Resolver Cache) where
  resolved : List (String × String) → List (String × Address)
  resolved [] = []
  resolved ((name, host) ∷ services) =
      let rest = resolved services in
      if str_eq host ""
      then rest
      else elim (resolver.resolve host) [ none ↦ rest | some ip ↦ (name, ip) ∷ rest ]

  -- ResolveServices
  unfoldable pub resolve_services : String → K8sReactor Cache → K8sReactor Cache
  unfolding resolved
  resolve_services runid d =
      if resolver.contains runid d.runids_cache
      then record d { runids_cache = resolver.touch runid d.runids_cache }
      else record {
        runids_cache = resolver.add runid d.runids_cache;
        allowed_services = resolved (
            ("sync-service", resolver.sync_service_host)
            ∷ ("influxdb", resolver.influxdb_host)
            ∷ []);
      }

-- what the container's inspection shows
pub record ContainerInfo : Type 0 where
  pub is_running : Bool
  pub pid : ℕ
  pub env : List String
  pub labels : Map String

pub record RunParams : Type 0 where
  pub test_sidecar : Bool
  pub test_run : String

-- a container to manage
pub record Pod : Type 0 where
  pub name : String
  pub run : String
  pub pid : ℕ

abbrev named_pod : ContainerInfo → RunParams → Option String → Fallible String (Option Pod)
named_pod info params none = err "couldn't get pod name from container labels"
named_pod info params (some name) =
    ok (some (record { name = name; run = params.test_run; pid = info.pid }))

-- the first part of manageContainer: which container is managed; none for one that is ignored
unfoldable pub examine :
    (List String → Fallible String RunParams)
    → Fallible String ContainerInfo
    → Fallible String (Option Pod)
examine parse inspected = Errors.◌>>=◌ inspected (λ info.
    Errors.◌>>◌ (fail_if (not info.is_running) "container is not running") (
      Errors.◌>>=◌ (parse info.env) (λ params.
        if params.test_sidecar
        then named_pod info params (lookup "io.kubernetes.pod.name" info.labels)
        else ok none)))

only_route : List LinkRoute → Fallible String LinkRoute
only_route (r ∷ []) = ok r
only_route rs = err "expected to get only one route to the given service"

-- `r.Dst.IP`
abbrev dst_address : Option Subnet → Fallible String Address
dst_address none = panic
dst_address (some d) = ok d.ip

module _ {W : Type 0} (machine : Machine W) where
  open machine use {route_get}

  -- getServiceRoute
  unfoldable pub get_service_route : Address → Action W String LinkRoute
  unfolding only_route
  get_service_route ip = do rs ← route_get ip; lift (only_route rs)

  -- the loop over the allowed services
  unfoldable pub service_addresses : List (String × Address) → Action W String (List Address)
  unfolding get_service_route
  service_addresses [] = pure []
  service_addresses ((name, ip) ∷ services) = do
    r ← get_service_route ip
    a ← lift (dst_address r.dst)
    ips ← service_addresses services
    pure (a ∷ ips)

  -- from the handle of netlink on
  unfoldable pub take_over : List (String × Address) → Action W String (Unit {0})
  unfolding service_addresses restrict_routes
  take_over services = do
    link ← machine.link_by_name "eth0"
    ips ← service_addresses services
    routes ← machine.route_list link
    restrict_routes machine ips routes
    machine.new_instance

  -- the deferred calls
  abbrev delete_on_error : Fallible String (Unit {0}) × W → Fallible String (Unit {0}) × W
  delete_on_error (ok u, w) = (ok u, w)
  delete_on_error (err e, w) = (err e, machine.delete_handle w)
  delete_on_error (panic, w) = (panic, w)

  abbrev close_after : Fallible String (Unit {0}) × W → Fallible String (Unit {0}) × W
  close_after (r, w) = (r, machine.close_namespace w)

  abbrev with_handle : List (String × Address) → Action W String (Unit {0})
  with_handle services w = delete_on_error (take_over services w)

  abbrev with_namespace : List (String × Address) → Action W String (Unit {0})
  with_namespace services w = close_after ((machine.open_handle >> with_handle services) w)

  -- the second part of manageContainer, for a pod
  unfoldable pub manage_pod : Pod → List (String × Address) → Action W String (Unit {0})
  unfolding take_over
  manage_pod pod services = do
    machine.wait_for_pod pod.name
    machine.open_namespace pod.pid
    with_namespace services

module _ {Cache W : Type 0} (resolver : Resolver Cache) (machine : Machine W) where
  -- manageContainer: whether the container is managed
  unfoldable pub manage_container :
      (List String → Fallible String RunParams)
      → Fallible String ContainerInfo
      → Action (K8sReactor Cache × W) String Bool
  unfolding examine manage_pod resolve_services
  manage_container parse inspected (d, w) = elim (examine parse inspected) [
    | err e ↦ (err e, (d, w))
    | panic ↦ (panic, (d, w))
    | ok none ↦ (ok false, (d, w))
    | ok (some pod) ↦
        let d' = resolve_services resolver pod.run d in
        let (r, w') = manage_pod machine pod d'.allowed_services w in
        ((elim r [ ok u ↦ ok true | err e ↦ err e | panic ↦ panic ]), (d', w'))
  ]
