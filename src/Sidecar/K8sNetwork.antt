-- ===== src/Sidecar/K8sNetwork.antt =====
-- pkg/sidecar/k8s_network.go: the one data network of a pod, which a CNI plugin adds and deletes.
use testground.Base.{
  ℕ, ◌≡◌, refl, ◌⊎◌, inl, inr, String, Bool, true, false, Option, none, some, List, [], ◌∷◌, str_eq,
  length, if◌then◌else◌, Option-cases,
}
use testground.Base.Int.{pos}
use testground.Base.Maps.{Map, lookup, insert, remove}
use testground.Base.Errors
use testground.Base.Errors.{Fallible, ok, err, panic}
use testground.Base.Actions.{Action, pure, raise, lift, ◌>>=◌, ◌>>◌}
use testground.Sidecar.{Call, Route, Netlink, new_netlink_link, shape_link, add_rules}
use testground.Sidecar.Routes.{Routing, Policy, get_k8s_routes, handle_routing_policy}
use testground.Sidecar.Retry.{Ran, returned, unfinished, after_attempts, retry}
use testground.Sidecar.Network.{Link, Config, differs, NetworkError}

pub data K8sError : Type 0 where
  not_default : K8sError
  ipv6_unsupported : K8sError
  failed : String → K8sError
  timed_out : K8sError
  bad_config : K8sError
  addresses : ℕ → K8sError
  routing_failed : List String → K8sError

-- a link with its CNI configuration
pub record K8sLink : Type 0 where
  pub link : Link
  pub netconf : String

-- the CNI plugin and the kernel
pub record PodHost (F : Type 0) (W : Type 0) : Type 0 where
  pub netlink : Netlink F W
  pub del_network_list : String → Call W
  pub add_network_list : String → Call W
  pub is_slow : W → Bool  -- whether the attempts to add take longer than 30 seconds
  pub config_list : Bool → String → Option String  -- of an address, or else of a subnet
  pub link_by_name : W → Fallible String ℕ × W
  pub route_list : ℕ → W → Fallible String (List Route) × W
  pub list_v4 : ℕ → W → Fallible String (List String) × W

-- K8sNetwork
pub record K8sNetwork (W : Type 0) : Type 0 where
  pub active_links : Map K8sLink
  pub external_routing : Map Routing
  pub subnet : String
  pub world : W

module _ {F W : Type 0} (host : PodHost F W) where
  open host use {
    netlink, del_network_list, add_network_list, is_slow, config_list, link_by_name, route_list,
    list_v4,
  }

  abbrev PodAction : Type 0 → Type 0
  PodAction A = Action (K8sNetwork W) K8sError A

  abbrev of_error : Option String → Fallible K8sError (Unit {0})
  of_error none = ok tt
  of_error (some e) = err (failed e)

  abbrev call : Call W → PodAction (Unit {0})
  call f s = let (e, w) = f s.world in (of_error e, record s { world = w })

  abbrev of_answer : {A : Type 0} → Fallible String A → Fallible K8sError A
  of_answer (ok a) = ok a
  of_answer (err e) = err (failed e)
  of_answer panic = panic

  abbrev ask : {A : Type 0} → (W → Fallible String A × W) → PodAction A
  ask f s = let (r, w) = f s.world in (of_answer r, record s { world = w })

  -- retry in the goroutine, or the timeout; the goroutine goes on after it
  abbrev of_retry : Bool → K8sNetwork W → Ran W → Fallible K8sError (Unit {0}) × K8sNetwork W
  of_retry true s (returned e w) = (err timed_out, record s { world = w })
  of_retry false s (returned none w) = (ok tt, record s { world = w })
  of_retry false s (returned (some (after_attempts n e)) w) =
      (err (failed e), record s { world = w })
  of_retry slow s unfinished = (err timed_out, s)

  abbrev add_network : String → PodAction (Unit {0})
  add_network netconf s =
      of_retry (is_slow s.world) s (retry (pos 3) (add_network_list netconf) s.world)

  abbrev remove_link : String → PodAction (Unit {0})
  remove_link name s = (ok tt, record s { active_links = remove name s.active_links })

  abbrev disconnect : Config F → K8sLink → PodAction (Unit {0})
  disconnect cfg link = call (del_network_list link.netconf) >> remove_link cfg.network

  abbrev or_raise : {A : Type 0} → K8sError → Option A → PodAction A
  or_raise e none = raise e
  or_raise e (some a) = pure a

  abbrev wanted_config : Config F → String → Option String
  wanted_config cfg subnet = elim cfg.ipv4 [
    | none ↦ config_list false subnet
    | some ip ↦ config_list true ip
  ]

  -- a failed list returns at once; the nil entry that it leaves in the map is not modelled
  abbrev store_routes : List Route → PodAction (Unit {0})
  store_routes rs s =
      (ok tt, record s { external_routing = insert "eth1" (get_k8s_routes rs) s.external_routing })

  abbrev only_address : List String → PodAction String
  only_address (a ∷ []) = pure a
  only_address [] = raise (addresses 0)
  only_address (a ∷ b ∷ as') = raise (addresses (length (a ∷ b ∷ as')))

  abbrev store_link : String → K8sLink → PodAction K8sLink
  store_link name link s = (ok link, record s { active_links = insert name link s.active_links })

  -- what follows the new interface
  abbrev register : Config F → String → PodAction K8sLink
  register cfg netconf = do
    index ← ask link_by_name
    rs ← ask (route_list index)
    store_routes rs
    call (new_netlink_link netlink index)
    v4 ← ask (list_v4 index)
    address ← only_address v4
    store_link cfg.network (record {
      link = record { index = index; ipv4 = some address; ipv6 = none };
      netconf = netconf;
    })

  abbrev connect : Config F → Option String → PodAction K8sLink
  connect cfg (some ip) s = raise ipv6_unsupported s
  connect cfg none s =
      ((do
        netconf ← or_raise bad_config (wanted_config cfg s.subnet)
        add_network netconf
        register cfg netconf)
        s)

  abbrev of_differs : Fallible NetworkError Bool → Fallible K8sError Bool
  of_differs (ok b) = ok b
  of_differs (err e) = panic
  of_differs panic = panic

  abbrev changes_address : Config F → Option K8sLink → Fallible K8sError Bool
  changes_address cfg none = ok false
  changes_address cfg (some l) =
      Errors.◌>>=◌ (of_differs (differs cfg.ipv6 l.link.ipv6))
        (λ six. if six then ok true else of_differs (differs cfg.ipv4 l.link.ipv4))

  abbrev drop_changed : Config F → Option K8sLink → Bool → PodAction (Option K8sLink)
  drop_changed cfg online false = pure online
  drop_changed cfg none true = pure none
  drop_changed cfg (some l) true = disconnect cfg l >> pure none

  abbrev connected : Config F → Option K8sLink → PodAction K8sLink
  connected cfg none = connect cfg cfg.ipv6
  connected cfg (some l) = pure l

  abbrev of_errors : List String → Fallible K8sError (Unit {0})
  of_errors [] = ok tt
  of_errors (e ∷ es) = err (routing_failed (e ∷ es))

  abbrev route_policy : Policy → PodAction (Unit {0})
  route_policy policy s =
      let (errs, routes, w) = handle_routing_policy netlink s.external_routing policy s.world in
      (of_errors errs, record s { external_routing = routes; world = w })

  abbrev finish : Config F → K8sLink → PodAction (Unit {0})
  finish cfg l = do
    call (shape_link netlink l.link.index cfg.default)
    call (add_rules netlink cfg.rules)
    route_policy cfg.routing_policy

  abbrev with_change : Config F → Option K8sLink → Bool → PodAction (Unit {0})
  with_change cfg online changed = do
    online' ← drop_changed cfg online changed
    l ← connected cfg online'
    finish cfg l

  abbrev enable_network : Config F → Option K8sLink → PodAction (Unit {0})
  enable_network cfg online = lift (changes_address cfg online) >>= with_change cfg online

  abbrev disable_network : Config F → Option K8sLink → PodAction (Unit {0})
  disable_network cfg none = pure tt
  disable_network cfg (some l) = disconnect cfg l

  -- ConfigureNetwork
  unfoldable pub configure_k8s_network : Config F → PodAction (Unit {0})
  configure_k8s_network cfg s =
      if str_eq cfg.network "default"
      then if cfg.enable
        then enable_network cfg (lookup cfg.network s.active_links) s
        else disable_network cfg (lookup cfg.network s.active_links) s
      else (err not_default, s)

  -- no link has an IPv6 address
  abbrev pub HasNoIpv6 : K8sNetwork W → Type 0
  HasNoIpv6 s =
      (name : String) (l : K8sLink) → lookup name s.active_links ≡ some l → l.link.ipv6 ≡ none

  -- ConfigureNetwork that enables the default network with an IPv6 address never succeeds: where no
  -- link is active it returns the error that IPv6 is not supported and changes nothing, and where
  -- one is active it panics.
  pub configure_k8s_network-ipv6 :
      (cfg : Config F) (s : K8sNetwork W) (ip : String)
      → HasNoIpv6 s
      → str_eq cfg.network "default" ≡ true
      → cfg.enable ≡ true
      → cfg.ipv6 ≡ some ip
      → ((lookup cfg.network s.active_links ≡ none)
          × (configure_k8s_network cfg s ≡ (err ipv6_unsupported, s)))
        ⊎ ((l : K8sLink) × (lookup cfg.network s.active_links ≡ some l)
            × (configure_k8s_network cfg s ≡ (panic, s)))
  unfolding configure_k8s_network
  configure_k8s_network-ipv6 cfg s ip no_six is_default on six =
      elim (Option-cases (lookup cfg.network s.active_links)) [
        | inl absent ↦ inl (absent, rw is_default (rw on (rw absent (rw six refl))))
        | inr (l, at) ↦
            inr (l, at, rw is_default (rw on (rw at (rw six (rw (no_six cfg.network l at) refl)))))
      ]
