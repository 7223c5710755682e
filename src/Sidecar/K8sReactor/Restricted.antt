-- ===== src/Sidecar/K8sReactor/Restricted.antt =====
-- Which routes a container of a cluster has left when the reactor manages it.
use testground.Base.{
  ◌≡◌, refl, sym, ap, subst, ◌⊎◌, inl, inr, String, Bool, true, false, not, ◌&&◌, Option, none,
  some, List, [], ◌∷◌, Bool-cases,
}
use testground.Base.Errors.{Fallible, ok}
use testground.Base.Actions.{>>=-ends}
use testground.Task.Database.{Elem}
use testground.Sidecar.{blackhole}
use testground.Sidecar.K8sReactor.{
  Subnet, is_default_route, is_services_route, Address, LinkRoute, Machine, host_of,
  kube_dns_cluster_ip, contains_address, same_subnet, pod_cidr, try_add, service_route,
  add_service_routes, keep_services, mark_routes, dns_route, add_dns_routes, gateway_route,
  blackhole_route, replace, replace_routes, restrict_routes,
}

-- Netlink's routing tables: a call touches the route that it names and no other.
pub record Table {W : Type 0} (machine : Machine W) : Type 1 where
  pub Has : LinkRoute → W → Type 0
  pub Has-add : (r s : LinkRoute) (w : W) → Has s (machine.route_add r w).1 → Has s w ⊎ (s ≡ r)
  pub Has-del : (r s : LinkRoute) (w : W) → Has s (machine.route_del r w).1 → Has s w
  pub Has-deleted :
      (r : LinkRoute) (w : W)
      → (machine.route_del r w).0 ≡ ok tt
      → ¬ Has r (machine.route_del r w).1

-- a route that the reactor gives: to a service, to the DNS, to a gateway, or to nowhere
pub data IsGiven (ips : List Address) : LinkRoute → Type 0 where
  to_service :
      (r : LinkRoute) (ip : Address) → Elem ip ips → r.dst ≡ some (host_of ip) → IsGiven ips r
  to_dns : (r : LinkRoute) → r.dst ≡ some (host_of kube_dns_cluster_ip) → IsGiven ips r
  to_gateway : (r : LinkRoute) → IsGiven ips (gateway_route r)
  to_nowhere : (r : LinkRoute) → r.kind ≡ blackhole → IsGiven ips r

module _ {W : Type 0} (machine : Machine W) (table : Table machine) (ips : List Address)
    (w₀ : W) where
  open machine use {route_add, route_del}
  open table use {Has, Has-add, Has-del, Has-deleted}

  -- the routes that the container has are given ones, or some of before that are not yet deleted
  abbrev IsLeft : List LinkRoute → W → Type 0
  IsLeft gone w = (s : LinkRoute) → Has s w → IsGiven ips s ⊎ (Has s w₀ × ¬ Elem s gone)

  add-IsLeft :
      (gone : List LinkRoute) (r : LinkRoute) (w : W)
      → IsGiven ips r
      → IsLeft gone w
      → IsLeft gone (route_add r w).1
  add-IsLeft gone r w given left s has = elim (Has-add r s w has) [
    | inl before ↦ left s before
    | inr same ↦ inl (subst (IsGiven ips) (sym same) given)
  ]

  del-IsLeft :
      (gone : List LinkRoute) (r : LinkRoute) (w : W)
      → (route_del r w).0 ≡ ok tt
      → IsLeft gone w
      → IsLeft (r ∷ gone) (route_del r w).1
  del-IsLeft gone r w deleted left s has = elim (left s (Has-del r s w has)) [
    | inl given ↦ inl given
    | inr (before, stays) ↦ inr (
      before,
      λ e. elim e [
        | inl same ↦ Has-deleted r w deleted (subst (λ x. Has x (route_del r w).1) same has)
        | inr later ↦ stays later
      ],
    )
  ]

  add_service_routes-IsLeft :
      (gone : List LinkRoute) (r : LinkRoute) (d : Subnet) (some_ips : List Address) (w : W)
      → ((a : Address) → Elem a some_ips → Elem a ips)
      → IsLeft gone w
      → IsLeft gone (add_service_routes machine r d some_ips w)
  unfolding add_service_routes
  add_service_routes-IsLeft gone r d [] w among left = left
  add_service_routes-IsLeft gone r d (ip ∷ some_ips) w among left =
      let others = λ (a : Address) (h : Elem a some_ips). among a (inr h) in
      elim (Bool-cases (contains_address d ip)) [
        | inl covered ↦ rw covered (
            add_service_routes-IsLeft gone r d some_ips (try_add machine (service_route r ip) w)
              others
              (add-IsLeft gone (service_route r ip) w
                (to_service (service_route r ip) ip (among ip (inl refl)) refl) left))
        | inr apart ↦ rw apart (add_service_routes-IsLeft gone r d some_ips w others left)
      ]

  keep_services-IsLeft :
      (gone : List LinkRoute) (r : LinkRoute) (dst : Option Subnet) (w : W)
      → IsLeft gone w
      → IsLeft gone (keep_services machine ips r dst w)
  keep_services-IsLeft gone r none w left = left
  keep_services-IsLeft gone r (some d) w left = elim (Bool-cases (same_subnet d pod_cidr)) [
    | inl pods ↦ rw pods left
    | inr differ ↦ rw differ (add_service_routes-IsLeft gone r d ips w (λ a h. h) left)
  ]

  mark_routes-IsLeft :
      (gone : List LinkRoute) (rs : List LinkRoute) (w : W)
      → IsLeft gone w
      → ((mark_routes machine ips rs w).0 ≡ rs) × IsLeft gone (mark_routes machine ips rs w).1
  unfolding mark_routes
  mark_routes-IsLeft gone [] w left = (refl, left)
  mark_routes-IsLeft gone (r ∷ rs) w left =
      let (marked, after) =
        mark_routes-IsLeft gone rs (keep_services machine ips r r.dst w)
          (keep_services-IsLeft gone r r.dst w left) in
      (ap (◌∷◌ r) marked, after)

  add_dns_routes-IsLeft :
      (gone : List LinkRoute) (rs : List LinkRoute) (w w' : W)
      → ◌≡◌ {A = Fallible String (Unit {0}) × W} (add_dns_routes machine rs w) (ok tt, w')
      → IsLeft gone w
      → IsLeft gone w'
  unfolding add_dns_routes
  add_dns_routes-IsLeft gone [] w w' e left = subst (IsLeft gone) (ap (λ x. x.1) e) left
  add_dns_routes-IsLeft gone (r ∷ rs) w w' e left = elim (Bool-cases (is_default_route r)) [
    | inl default ↦
        let (u, added, rest) =
          >>=-ends (route_add (dns_route r)) (λ _. add_dns_routes machine rs) w (rw default at e) in
        add_dns_routes-IsLeft gone rs (route_add (dns_route r) w).1 w' rest
          (add-IsLeft gone (dns_route r) w (to_dns (dns_route r) refl) left)
    | inr other ↦ add_dns_routes-IsLeft gone rs w w' (rw other at e) left
  ]

  -- the routes that are deleted by the end of the last loop
  abbrev gone_after : List LinkRoute → List LinkRoute → List LinkRoute
  gone_after gone [] = gone
  gone_after gone (r ∷ rs) = gone_after (r ∷ gone) rs

  Elem-gone_before :
      (gone rs : List LinkRoute) (s : LinkRoute) → Elem s gone → Elem s (gone_after gone rs)
  Elem-gone_before gone [] s h = h
  Elem-gone_before gone (r ∷ rs) s h = Elem-gone_before (r ∷ gone) rs s (inr h)

  Elem-gone_after :
      (gone rs : List LinkRoute) (s : LinkRoute) → Elem s rs → Elem s (gone_after gone rs)
  Elem-gone_after gone [] s h = absurd h
  Elem-gone_after gone (r ∷ rs) s (inl same) = Elem-gone_before (r ∷ gone) rs s (inl same)
  Elem-gone_after gone (r ∷ rs) s (inr later) = Elem-gone_after (r ∷ gone) rs s later

  module _ (deletes : (r : LinkRoute) (w : W) → (route_del r w).0 ≡ ok tt) where
    replace-IsLeft :
        (gone : List LinkRoute) (r : LinkRoute) (w : W)
        → IsLeft gone w
        → IsLeft (r ∷ gone) (replace machine r w)
    replace-IsLeft gone r w left =
        add-IsLeft (r ∷ gone) (blackhole_route r) (route_del r w).1
          (to_nowhere (blackhole_route r) refl) (del-IsLeft gone r w (deletes r w) left)

    replace_routes-IsLeft :
        (gone : List LinkRoute) (added : Bool) (rs : List LinkRoute) (w w' : W)
        → ◌≡◌ {A = Fallible String (Unit {0}) × W} (replace_routes machine added rs w) (ok tt, w')
        → IsLeft gone w
        → IsLeft (gone_after gone rs) w'
    unfolding replace_routes
    replace_routes-IsLeft gone added [] w w' e left = subst (IsLeft gone) (ap (λ x. x.1) e) left
    replace_routes-IsLeft gone added (r ∷ rs) w w' e left =
        elim (Bool-cases (not added && is_services_route r)) [
          | inl shows ↦
              let (u, gave, rest) =
                >>=-ends (route_add (gateway_route r))
                  (λ _ x. replace_routes machine true rs (replace machine r x)) w (rw shows at e) in
              replace_routes-IsLeft (r ∷ gone) true rs
                (replace machine r (route_add (gateway_route r) w).1) w' rest
                (replace-IsLeft gone r (route_add (gateway_route r) w).1
                  (add-IsLeft gone (gateway_route r) w (to_gateway r) left))
          | inr other ↦
              replace_routes-IsLeft (r ∷ gone) added rs (replace machine r w) w' (rw other at e)
                (replace-IsLeft gone r w left)
        ]

-- When the reactor has restricted the routes of a container without an error, and the kernel has
-- deleted each route that it was told to, every route that is left leads to an allowed service, to
-- the DNS, to a gateway or to nowhere, or was not one of the control link's; whether the other
-- calls succeeded does not matter.
pub restrict_routes_correct :
    {W : Type 0} (machine : Machine W) (table : Table machine) (ips : List Address)
    (routes : List LinkRoute) (w w' : W)
    → ((r : LinkRoute) (x : W) → (machine.route_del r x).0 ≡ ok tt)
    → ◌≡◌ {A = Fallible String (Unit {0}) × W} (restrict_routes machine ips routes w) (ok tt, w')
    → (s : LinkRoute) → table.Has s w'
    → IsGiven ips s ⊎ (table.Has s w × ¬ Elem s routes)
unfolding restrict_routes
restrict_routes_correct machine table ips routes w w' deletes e s has =
    let (same, marked) =
      mark_routes-IsLeft machine table ips w [] routes w
        (λ x h. inr (h, λ none_gone. absurd none_gone)) in
    let after = (mark_routes machine ips routes w).1 in
    let (u, dns, rest) =
      >>=-ends (add_dns_routes machine routes)
        (λ _. replace_routes machine false (mark_routes machine ips routes w).0) after e in
    let left =
      replace_routes-IsLeft machine table ips w deletes [] false
        (mark_routes machine ips routes w).0 (add_dns_routes machine routes after).1 w' rest
        (add_dns_routes-IsLeft machine table ips w [] routes after
          (add_dns_routes machine routes after).1
          (ap (λ r. (r, (add_dns_routes machine routes after).1)) dns) marked) in
    elim (left s has) [
      | inl given ↦ inl given
      | inr (before, stays) ↦ inr (
        before,
        λ among. stays (
            Elem-gone_after machine table ips w [] (mark_routes machine ips routes w).0 s
              (subst (Elem s) (sym same) among)),
      )
    ]
