-- ===== src/Tests/Sidecars.antt =====
-- The sidecar at concrete values.
use testground.Base.{
  ℕ, false, ◌+◌, ◌≡◌, ◌⊎◌, refl, String, true, Option, none, some, List, [], ◌∷◌, ◌++◌, ◌==◌,
  if◌then◌else◌,
}
use testground.Base.Int.{pos}
use testground.Base.Maps.{Map, lookup, insert}
use testground.Base.Errors.{ok}
use testground.Sidecar.{
  Call, Netlink, LinkShape, Route, RouteKind, drop, new_netlink_link, shape_link, add_rules,
}
use testground.Sidecar.Routes.{
  Routing, Policy, handle_routing_policy, IsSettled, Performs, planned,
  handle_routing_policy-settles,
}
use testground.Sidecar.Network.{Host, Config, Network, configure_network, mac_to_net, link_map}
use testground.Sidecar.Retry.{retry, Outcome, retry_correct}
use testground.Sidecar.Handler
use testground.Sidecar.Handler.{Effect, closed, handler, plan, handler_correct}

-- a kernel that counts the calls that it takes
abbrev counting : Call ℕ
counting n = (none, n + 1)

abbrev kernel : Netlink ℕ ℕ
kernel = record {
  route_add = λ r. counting;
  route_del = λ r. counting;
  route_replace = λ r. counting;
  htb_add = λ p c. counting;
  class_add = λ p c. counting;
  class_change = λ p c. counting;
  netem_add = λ p. counting;
  netem_change = λ p c. counting;
}

abbrev gateway : Route
gateway = record { dst = none; src = none; kind = RouteKind.unspecified; rest = "via 192.18.0.1" }

abbrev control_routes : Map Routing
control_routes = ("control", record { enabled = true; routes = gateway ∷ [] }) ∷ []

deny-control : (handle_routing_policy kernel control_routes Policy.deny_all 0).0 ≡ []
unfolding handle_routing_policy
deny-control = refl

abbrev test_host : Host ℕ ℕ
test_host = record {
  netlink = kernel;
  network_disconnect = λ id. counting;
  network_connect = λ id a b. counting;
  inspect = λ n. (
    ok (
        record {
          network_id = "net1";
          mac = "aa";
          ip_address = "16.0.0.2";
          global_ipv6_address = "";
        }
        ∷ []),
    n,
  );
  link_list = λ n. (ok (record { device_index = 7; device_mac = "aa" } ∷ []), n);
  parse_ip = λ s. some s;
}

abbrev no_shape : LinkShape ℕ
no_shape = record {
  latency = pos 0;
  jitter = pos 0;
  bandwidth = 0;
  loss = 0;
  corrupt = 0;
  corrupt_corr = 0;
  reorder = 0;
  reorder_corr = 0;
  duplicate = 0;
  duplicate_corr = 0;
}

abbrev enabling : Config ℕ
enabling = record {
  network = "default";
  enable = true;
  ipv4 = none;
  ipv6 = none;
  default = no_shape;
  rules = record { subnet = "10.0.0.0/8"; filter = drop } ∷ [];
  routing_policy = Policy.deny_all;
}

abbrev offline : Network ℕ
offline = record {
  active_links = [];
  available_links = ("default", "net1") ∷ [];
  external_routing = control_routes;
  world = 0;
}

enabling-succeeds : (configure_network test_host enabling offline).0 ≡ ok tt
unfolding configure_network handle_routing_policy mac_to_net link_map lookup insert new_netlink_link
    shape_link add_rules
enabling-succeeds = refl

-- a call that succeeds the second time
abbrev second_time : Call ℕ
second_time n = (if n == 1 then none else some "not yet", n + 1)

retry_correct_example : Outcome 3 second_time 0 (retry (pos 3) second_time 0)
retry_correct_example = retry_correct (pos 3) second_time 0

abbrev one_change : List Handler.Event
one_change =
    Handler.change (record { network = "default"; enable = false; rest = "" }) "changed" ∷ []

-- the signal after the change fails
abbrev answer : List Effect → Option String
answer (a ∷ b ∷ c ∷ d ∷ e ∷ es) = some "no redis"
answer _ = none

handler_correct_example :
    ◌≡◌ {A = Option String × List Effect}
      (handler answer one_change)
      (none, plan one_change ++ closed ∷ [])
    ⊎ ((e : String) × (made left : List Effect) × (plan one_change ≡ made ++ left)
        × (answer made ≡ some e)
        × ◌≡◌ {A = Option String × List Effect}
            (handler answer one_change)
            (some e, made ++ closed ∷ []))
handler_correct_example = handler_correct answer one_change

handle_routing_policy-settles_example :
    let (errs, routes, w) = handle_routing_policy kernel control_routes Policy.deny_all 0 in
    Performs kernel (planned kernel Policy.deny_all control_routes) 0 w
    × IsSettled kernel Policy.deny_all routes
    × ◌≡◌ {A = List String × Map Routing × ℕ}
        (handle_routing_policy kernel routes Policy.deny_all w)
        ([], routes, w)
handle_routing_policy-settles_example =
    handle_routing_policy-settles kernel Policy.deny_all control_routes 0 deny-control
