-- ===== src/Sidecar/DockerReactor.antt =====
-- pkg/sidecar/docker_reactor.go: what the sidecar does with a container of local docker before it
-- hands it to the handler: each of its links is one that the tests shape, or one whose routes are
-- kept, so that a test can be cut off from them.
pub mod Sorted
use testground.Base.{
  ℕ, ◌≡◌, ◌≢◌, refl, String, Bool, true, false, not, Option, none, some, List, [], ◌∷◌, ◌++◌, ◌==◌,
  All, str_eq, if◌then◌else◌, Bool-cases, Option-cases, inl, inr,
}
use testground.Base.Maps.{Map, lookup, insert, lookup-insert}
use testground.Base.Errors
use testground.Base.Errors.{Fallible, ok, err, panic, fail_if}
use testground.Base.Actions.{Action, pure, raise, lift, ◌>>=◌, ◌>>◌, >>=-ends}
use testground.Sidecar.{Call, Route, Netlink, new_netlink_link}
use testground.Sidecar.Routes.{Routing, get_docker_routes}
use testground.Sidecar.Network.{Link, Endpoint, Device, Network, NetworkError, mac_to_net, link_map}

-- a route that `RouteGet` shows, with its link and its gateway
pub record LearnedRoute : Type 0 where
  pub route : Route
  pub link_index : ℕ
  pub gw : Option String

pub record ContainerInfo : Type 0 where
  pub is_running : Bool
  pub name_has_mkdir : Bool  -- the name contains "mkdir-outputs"
  pub env : List String
  pub run_label : String
  pub endpoints : List Endpoint

-- docker, the kernel and the sync service
pub record ReactorHost (F W : Type 0) : Type 0 where
  pub netlink : Netlink F W
  pub route_get : String → Action W String (List LearnedRoute)
  pub route_list : ℕ → Action W String (List Route)
  pub network_list : String → Action W String (List (String × String))  -- names and identifiers
  pub open_namespace : Action W String (Unit {0})
  pub open_handle : Action W String (Unit {0})
  pub close_namespace : W → W
  pub delete_handle : W → W
  pub link_list : Action W String (List Device)
  pub parse_ip : String → Option String
  pub link_error : NetworkError → String
  pub new_instance : Action W String (Unit {0})

abbrev of_call : {W : Type 0} → Call W → Action W String (Unit {0})
of_call c w = let (e, w') = c w in (elim e [ none ↦ ok tt | some x ↦ err x ], w')

-- availableLinks, name by name
abbrev available_links : List (String × String) → Map String → Map String
available_links [] m = m
available_links ((name, id) ∷ ns) m = available_links ns (insert name id m)

-- reverseIndex
abbrev reverse_index : Map String → Map String → Map String
reverse_index [] m = m
reverse_index ((name, id) ∷ links) m = reverse_index links (insert id name m)

-- the links that were found: the shaped ones by name, the routes of the others by identifier
pub record Found : Type 0 where
  pub active_links : Map Link
  pub external_routing : Map Routing

module _ {F W : Type 0} (host : ReactorHost F W) where
  open host use {netlink, route_get, route_list}

  -- the routes to the services
  unfoldable pub service_routes : List String → Action W String (List LearnedRoute)
  service_routes [] = pure []
  service_routes (ip ∷ ips) = do rs ← route_get ip; more ← service_routes ips; pure (rs ++ more)

  -- an error of the call is logged
  abbrev host_routes :
      Fallible String (List LearnedRoute) × W → Fallible String (List LearnedRoute) × W
  host_routes (ok rs, w) = (ok rs, w)
  host_routes (err e, w) = (ok [], w)
  host_routes (panic, w) = (panic, w)

  -- the switch over the routes to a public address
  abbrev gateway_routes : List LearnedRoute → Action W String (List LearnedRoute)
  gateway_routes [] = pure []
  gateway_routes (r ∷ rs) = elim r.gw [
    | none ↦ pure []
    | some gw ↦ λ w. host_routes (route_get gw w)
  ]

  -- getControlRoutes
  unfoldable pub get_control_routes : List String → Action W String (List LearnedRoute)
  unfolding service_routes
  get_control_routes services = do
    rs ← service_routes services
    public ← route_get "1.1.1.1"
    more ← gateway_routes public
    pure (rs ++ more)

  -- the control routes of one link
  unfoldable pub add_control_routes : ℕ → List LearnedRoute → Action W String (Unit {0})
  add_control_routes index [] = pure tt
  add_control_routes index (r ∷ rs) =
      let rest = add_control_routes index rs in
      if r.link_index == index then of_call (netlink.route_add r.route) >> rest else rest

  -- a link that is of no network of the run
  abbrev pub keep_routes : List LearnedRoute → String → Link → Found → Action W String Found
  keep_routes control id link found = do
    rs ← route_list link.index
    add_control_routes link.index control
    pure (record found {
      external_routing = insert id (get_docker_routes rs) found.external_routing;
    })

  abbrev pub shape : String → Link → Found → Action W String Found
  shape name link found = do
    of_call (new_netlink_link netlink link.index)
    pure (record found { active_links = insert name link found.active_links })

  abbrev pub sort_link :
      Option String → List LearnedRoute → String → Link → Found → Action W String Found
  sort_link none control id link found = keep_routes control id link found
  sort_link (some name) control id link found = shape name link found

  -- the loop over the links
  unfoldable pub sort_links :
      Map String → List LearnedRoute → Map Link → Found → Action W String Found
  unfolding add_control_routes
  sort_links names control [] found = pure found
  sort_links names control ((id, link) ∷ links) found =
      sort_link (lookup id names) control id link found >>= sort_links names control links

  abbrev of_links {ℓ} : {A : Type ℓ} → Fallible NetworkError A → Fallible String A
  of_links (ok m) = ok m
  of_links (err e) = err (host.link_error e)
  of_links panic = panic

  abbrev none_found : Found
  none_found = record { active_links = []; external_routing = [] }

  -- from the handles on
  unfoldable pub connect_container :
      List String → ContainerInfo → List (String × String) → Action W String (Map String × Found)
  unfolding get_control_routes sort_links
  connect_container services info networks = do
    parsed ← lift (of_links (mac_to_net host.parse_ip info.endpoints []))
    devices ← host.link_list
    let links = link_map parsed devices []
    control ← get_control_routes services
    found ← sort_links (reverse_index (available_links networks []) []) control links none_found
    host.new_instance
    pure (available_links networks [], found)

  abbrev delete_on_error {ℓ} : {A : Type ℓ} → Fallible String A × W → Fallible String A × W
  delete_on_error (ok a, w) = (ok a, w)
  delete_on_error (err e, w) = (err e, host.delete_handle w)
  delete_on_error (panic, w) = (panic, w)

  abbrev with_handles {ℓ} : {A : Type ℓ} → Action W String A → Action W String A
  with_handles m w = let (r, w') = delete_on_error (m w) in (r, host.close_namespace w')

  -- getNetworkHandlers: a failure of the second call closes what the first has opened
  unfoldable pub get_network_handlers : Action W String (Unit {0})
  get_network_handlers = do
    host.open_namespace
    λ w.
        let (r, w') = host.open_handle w in
        elim r [
          | ok u ↦ (ok u, w')
          | err e ↦ (err e, host.close_namespace w')
          | panic ↦ (panic, w')
        ]

  -- handleContainer, from the resolved services on
  unfoldable pub handle_running : List String → ContainerInfo → Action W String (Map String × Found)
  unfolding connect_container get_network_handlers
  handle_running services info = do
    networks ← host.network_list info.run_label
    get_network_handlers
    with_handles (connect_container services info networks)

-- the checks at the start of handleContainer: none for a container that is ignored
unfoldable pub examine_container :
    (List String → Fallible String (Bool × String))
    → Fallible String ContainerInfo
    → Fallible String (Option (String × ContainerInfo))
examine_container parse inspected = Errors.◌>>=◌ inspected (λ info.
    Errors.◌>>◌ (fail_if (not info.is_running) "not running") (
      Errors.◌>>=◌ (parse info.env) (λ (uses, run).
        ok (if uses then (if info.name_has_mkdir then none else some (run, info)) else none))))
