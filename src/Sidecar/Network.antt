-- ===== src/Sidecar/Network.antt =====
-- pkg/sidecar/docker_network.go: the networks that an instance is connected to. The resolution of
-- docker's networks to links, dockerLinks, is a child.
use testground.Base.{
  ℕ, String, Bool, true, false, not, Option, none, some, List, [], ◌∷◌, str_eq, if◌then◌else◌,
}
use testground.Base.Maps.{Map, lookup, insert, remove}
use testground.Base.Errors
use testground.Base.Errors.{Fallible, ok, err, panic}
use testground.Base.Actions.{Action, pure, raise, lift, ◌>>=◌, ◌>>◌}
use testground.Sidecar.{Call, Netlink, LinkShape, LinkRule, new_netlink_link, shape_link, add_rules}
use testground.Sidecar.Routes.{Routing, Policy, handle_routing_policy}

pub data NetworkError : Type 0 where
  unsupported : String → NetworkError
  call_failed : String → NetworkError
  routing_failed : List String → NetworkError
  no_interface : String → NetworkError
  bad_address : String → NetworkError

-- a link: its index, and its addresses by their texts
pub record Link : Type 0 where
  pub index : ℕ
  pub ipv4 : Option String
  pub ipv6 : Option String

-- an entry of docker's network settings; an empty address is none
pub record Endpoint : Type 0 where
  pub network_id : String
  pub mac : String
  pub ip_address : String
  pub global_ipv6_address : String

-- a link of the kernel
pub record Device : Type 0 where
  pub device_index : ℕ
  pub device_mac : String

-- docker and the kernel
pub record Host (F : Type 0) (W : Type 0) : Type 0 where
  pub netlink : Netlink F W
  pub network_disconnect : String → Call W
  pub network_connect : String → Option String → Option String → Call W  -- with the addresses
  pub inspect : W → Fallible String (List Endpoint) × W
  pub link_list : W → Fallible String (List Device) × W
  pub parse_ip : String → Option String

-- network.Config, by what ConfigureNetwork reads
pub record Config (F : Type 0) : Type 0 where
  pub network : String
  pub enable : Bool
  pub ipv4 : Option String
  pub ipv6 : Option String
  pub default : LinkShape F
  pub rules : List LinkRule
  pub routing_policy : Policy

-- DockerNetwork, with the state of docker and the kernel
pub record Network (W : Type 0) : Type 0 where
  pub active_links : Map Link
  pub available_links : Map String
  pub external_routing : Map Routing
  pub world : W

-- `net.ParseIP` of an address that is not empty
parse_address : (String → Option String) → String → Fallible NetworkError (Option String)
parse_address parse_ip text =
    if str_eq text ""
    then ok none
    else elim (parse_ip text) [ none ↦ err (bad_address text) | some ip ↦ ok (some ip) ]

-- the first loop of dockerLinks: macToNet, with the index still unknown
unfoldable pub mac_to_net :
    (String → Option String)
    → List Endpoint
    → Map (String × Link)
    → Fallible NetworkError (Map (String × Link))
unfolding parse_address
mac_to_net parse_ip [] m = ok m
mac_to_net parse_ip (n ∷ ns) m = Errors.◌>>=◌ (parse_address parse_ip n.ip_address) (λ ip4.
    Errors.◌>>=◌ (parse_address parse_ip n.global_ipv6_address) (λ ip6.
      mac_to_net parse_ip ns
        (insert n.mac (n.network_id, record { index = 0; ipv4 = ip4; ipv6 = ip6 }) m)))

abbrev add_device : Device → Option (String × Link) → Map Link → Map Link
add_device d none links = links
add_device d (some (id, l)) links = insert id (record l { index = d.device_index }) links

-- the second loop
unfoldable pub link_map : Map (String × Link) → List Device → Map Link → Map Link
link_map m [] links = links
link_map m (d ∷ ds) links = link_map m ds (add_device d (lookup d.device_mac m) links)

-- `!link.IP.Equal(cfg.IP)` for a configured address: a link without one is a nil pointer
abbrev pub differs : Option String → Option String → Fallible NetworkError Bool
differs none address = ok false
differs (some ip) none = panic
differs (some ip) (some address) = ok (not (str_eq address ip))

module _ {F W : Type 0} (host : Host F W) where
  open host use {netlink, network_disconnect, network_connect, inspect, link_list, parse_ip}

  abbrev NetworkAction : Type 0 → Type 0
  NetworkAction A = Action (Network W) NetworkError A

  abbrev of_error : Option String → Fallible NetworkError (Unit {0})
  of_error none = ok tt
  of_error (some e) = err (call_failed e)

  -- a call on the state of docker and the kernel
  abbrev pub call : Call W → NetworkAction (Unit {0})
  call f s = let (e, w) = f s.world in (of_error e, record s { world = w })

  abbrev of_answer : {A : Type 0} → Fallible String A → Fallible NetworkError A
  of_answer (ok a) = ok a
  of_answer (err e) = err (call_failed e)
  of_answer panic = panic

  abbrev pub ask : {A : Type 0} → (W → Fallible String A × W) → NetworkAction A
  ask f s = let (r, w) = f s.world in (of_answer r, record s { world = w })

  abbrev of_errors : List String → Fallible NetworkError (Unit {0})
  of_errors [] = ok tt
  of_errors (e ∷ es) = err (routing_failed (e ∷ es))

  abbrev pub route_policy : Policy → NetworkAction (Unit {0})
  route_policy policy s =
      let (errs, routes, w) = handle_routing_policy netlink s.external_routing policy s.world in
      (of_errors errs, record s { external_routing = routes; world = w })

  abbrev pub delete_link : String → NetworkAction (Unit {0})
  delete_link name s = (ok tt, record s { active_links = remove name s.active_links })

  abbrev pub add_link : String → Link → NetworkAction (Unit {0})
  add_link name link s = (ok tt, record s { active_links = insert name link s.active_links })

  abbrev pub disconnect : Config F → String → NetworkAction (Unit {0})
  disconnect cfg net_id = call (network_disconnect net_id) >> delete_link cfg.network

  abbrev pub or_raise : {A : Type 0} → NetworkError → Option A → NetworkAction A
  or_raise e none = raise e
  or_raise e (some a) = pure a

  -- the part that connects, from its end
  abbrev pub register : Config F → Link → NetworkAction Link
  register cfg link =
      call (new_netlink_link netlink link.index) >> (add_link cfg.network link >> pure link)

  abbrev pub resolve : Config F → String → Map Link → NetworkAction Link
  resolve cfg net_id links =
      or_raise (no_interface cfg.network) (lookup net_id links) >>= register cfg

  -- dockerLinks: it lists the devices after it has parsed the addresses
  abbrev pub listed : Config F → String → Map (String × Link) → NetworkAction Link
  listed cfg net_id found =
      ask link_list >>= λ devices. resolve cfg net_id (link_map found devices [])

  abbrev pub inspected : Config F → String → List Endpoint → NetworkAction Link
  inspected cfg net_id endpoints = lift (mac_to_net parse_ip endpoints []) >>= listed cfg net_id

  abbrev pub connect : Config F → String → NetworkAction Link
  connect cfg net_id = do
    call (network_connect net_id cfg.ipv4 cfg.ipv6)
    ask inspect >>= inspected cfg net_id

  abbrev pub changes_address : Config F → Option Link → Fallible NetworkError Bool
  changes_address cfg none = ok false
  changes_address cfg (some link) =
      Errors.◌>>=◌ (differs cfg.ipv6 link.ipv6)
        (λ six. if six then ok true else differs cfg.ipv4 link.ipv4)

  abbrev pub drop_changed : Config F → String → Bool → Option Link → NetworkAction (Option Link)
  drop_changed cfg net_id false online = pure online
  drop_changed cfg net_id true online = disconnect cfg net_id >> pure none

  abbrev pub connected : Config F → String → Option Link → NetworkAction Link
  connected cfg net_id none = connect cfg net_id
  connected cfg net_id (some link) = pure link

  abbrev pub finish : Config F → Link → NetworkAction (Unit {0})
  finish cfg link =
      call (shape_link netlink link.index cfg.default) >> call (add_rules netlink cfg.rules)

  abbrev pub with_online : Config F → String → Option Link → NetworkAction (Unit {0})
  with_online cfg net_id online = connected cfg net_id online >>= finish cfg

  abbrev pub with_change : Config F → String → Option Link → Bool → NetworkAction (Unit {0})
  with_change cfg net_id online changed =
      drop_changed cfg net_id changed online >>= with_online cfg net_id

  abbrev pub enable_network : Config F → String → Option Link → NetworkAction (Unit {0})
  enable_network cfg net_id online =
      lift (changes_address cfg online) >>= with_change cfg net_id online

  abbrev pub disable_network : Config F → String → Option Link → NetworkAction (Unit {0})
  disable_network cfg net_id none = pure tt
  disable_network cfg net_id (some link) = disconnect cfg net_id

  abbrev pub find_link : String → NetworkAction (Option Link)
  find_link name s = (ok (lookup name s.active_links), s)

  abbrev pub available : Config F → NetworkAction String
  available cfg s = or_raise (unsupported cfg.network) (lookup cfg.network s.available_links) s

  abbrev pub switch_network : Config F → String → Option Link → NetworkAction (Unit {0})
  switch_network cfg net_id online =
      if cfg.enable then enable_network cfg net_id online else disable_network cfg net_id online

  abbrev pub find_and_switch : Config F → String → NetworkAction (Unit {0})
  find_and_switch cfg net_id = find_link cfg.network >>= switch_network cfg net_id

  abbrev pub with_id : Config F → String → NetworkAction (Unit {0})
  with_id cfg net_id = route_policy cfg.routing_policy >> find_and_switch cfg net_id

  -- ConfigureNetwork
  unfoldable pub configure_network : Config F → NetworkAction (Unit {0})
  configure_network cfg = available cfg >>= with_id cfg
