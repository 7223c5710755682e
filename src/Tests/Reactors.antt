-- ===== src/Tests/Reactors.antt =====
-- The reactor of a cluster on a small routing table.
use testground.Base.{
  ℕ, false, ap, arith, ◌≡◌, ◌≢◌, refl, ◌⊎◌, inl, inr, String, none, some, List, [], ◌∷◌,
}
use testground.Base.Errors.{Fallible, ok}
use testground.Task.Database.{Elem}
use testground.Sidecar.{unspecified}
use testground.Sidecar.K8sReactor.{
  Address, v4, LinkRoute, Machine, service_route, restrict_routes, mark_routes, add_dns_routes,
  replace_routes, add_service_routes, contains_address,
}
use testground.Sidecar.K8sReactor.Restricted.{Table, IsGiven, restrict_routes_correct}

-- the calls, the last one first
data Step : Type 0 where
  added deleted : LinkRoute → Step

abbrev Stands : LinkRoute → List Step → Type 0
Stands s [] = ⊥
Stands s (added r ∷ log) = Stands s log ⊎ (s ≡ r)
Stands s (deleted r ∷ log) = Stands s log × (s ≢ r)

abbrev machine : Machine (List Step)
machine = record {
  wait_for_pod = λ name log. (ok tt, log);
  open_namespace = λ pid log. (ok tt, log);
  close_namespace = λ log. log;
  open_handle = λ log. (ok tt, log);
  delete_handle = λ log. log;
  link_by_name = λ name log. (ok 1, log);
  route_get = λ ip log. (ok [], log);
  route_list = λ link log. (ok [], log);
  route_add = λ r log. (ok tt, added r ∷ log);
  route_del = λ r log. (ok tt, deleted r ∷ log);
  new_instance = λ log. (ok tt, log);
}

table : Table machine
table = record {
  Has = Stands;
  Has-add = λ r s log h. h;
  Has-del = λ r s log h. h.0;
  Has-deleted = λ r log works h. h.1 refl;
}

-- the default route, by 100.96.0.1, and that of the services
abbrev default_route : LinkRoute
default_route = record {
  link_index = 1;
  dst = none;
  src = none;
  gw = v4 1684013057;
  kind = unspecified;
  is_link_scope = false;
}

abbrev services_route : LinkRoute
services_route = record default_route { dst = some (record { ip = v4 1681915904; bits = 10 }) }

abbrev control_routes : List LinkRoute
control_routes = default_route ∷ services_route ∷ []

-- 100.64.1.1
abbrev sync_service : List Address
sync_service = v4 1681916161 ∷ []

abbrev before : List Step
before = added services_route ∷ added default_route ∷ []

abbrev after : List Step
after = (restrict_routes machine sync_service control_routes before).1

restricts :
    ◌≡◌ {A = Fallible String (Unit {0}) × List Step}
      (restrict_routes machine sync_service control_routes before)
      (ok tt, after)
unfolding restrict_routes mark_routes add_dns_routes replace_routes add_service_routes
    contains_address
restricts = refl

-- the route to the sync service that the reactor has given
abbrev given_route : LinkRoute
given_route = service_route services_route (v4 1681916161)

abbrev length_of : LinkRoute → ℕ
length_of r = elim r.dst [ none ↦ 0 | some d ↦ d.bits ]

not_services : given_route ≢ services_route
not_services e = absurd (omega (arith, ap length_of e))

not_default : given_route ≢ default_route
not_default e = absurd (omega (arith, ap length_of e))

stands : Stands given_route after
unfolding restrict_routes mark_routes add_dns_routes replace_routes add_service_routes
    contains_address
stands = inl (inl (inl (inl (inr refl), not_default)), not_services)

restrict_routes_correct_example :
    IsGiven sync_service given_route
    ⊎ (Stands given_route before × ¬ Elem given_route control_routes)
unfolding table
restrict_routes_correct_example =
    restrict_routes_correct machine table sync_service control_routes before after (λ r log. refl)
      restricts given_route stands
