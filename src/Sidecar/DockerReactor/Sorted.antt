-- ===== src/Sidecar/DockerReactor/Sorted.antt =====
-- Where the links of a container stand after the reactor has gone over them.
use testground.Base.{
  ◌≡◌, ◌≢◌, ap, subst, String, Option, none, some, List, [], ◌∷◌, All, str_eq, Bool-cases, inl, inr,
  arith, eq_iff,
}
use testground.Base.Maps.{Map, lookup, insert, lookup-insert}
use testground.Base.Errors.{Fallible, ok, err, panic}
use testground.Base.Actions.{pure, ◌>>◌, >>=-ends}
use testground.Sidecar.{new_netlink_link}
use testground.Sidecar.Routes.{get_docker_routes}
use testground.Sidecar.Network.{Link}
use testground.Sidecar.DockerReactor.{
  LearnedRoute, ReactorHost, Found, of_call, add_control_routes, sort_link, sort_links,
}

abbrev pub IsHeld {ℓ} : {V : Type ℓ} → String → Map V → Type ℓ
IsHeld k m = lookup k m ≢ none

IsHeld-insert {ℓ} :
    {V : Type ℓ} (k : String) (v : V) (m : Map V) (j : String)
    → IsHeld j m
    → IsHeld j (insert k v m)
IsHeld-insert k v m j h e =
    let written = lookup-insert k j v m in
    elim (Bool-cases (str_eq k j)) [
      | inl same ↦ cc (rw same at written, e)
      | inr differ ↦ h (cc (rw differ at written, e))
    ]

IsHeld-inserted {ℓ} : {V : Type ℓ} (k : String) (v : V) (m : Map V) → IsHeld k (insert k v m)
IsHeld-inserted k v m e = ground (arith, lookup-insert k k v m, eq_iff k k)

-- what was found stays found
abbrev Keeps : Found → Found → Type 0
Keeps f g =
    ((k : String) → IsHeld k f.active_links → IsHeld k g.active_links)
    × ((k : String) → IsHeld k f.external_routing → IsHeld k g.external_routing)

-- the place of a link: by its name where the run has its network, else by the network
abbrev pub IsPlaced : Option String → String → Found → Type 0
IsPlaced none id f = IsHeld id f.external_routing
IsPlaced (some name) id f = IsHeld name f.active_links

IsPlaced-kept :
    (name : Option String) (id : String) (f g : Found)
    → Keeps f g
    → IsPlaced name id f
    → IsPlaced name id g
IsPlaced-kept none id f g keeps h = keeps.1 id h
IsPlaced-kept (some name) id f g keeps h = keeps.0 name h

module _ {F W : Type 0} (host : ReactorHost F W) (control : List LearnedRoute) where
  sort_link-IsPlaced :
      (name : Option String) (id : String) (link : Link) (f g : Found) (w w' : W)
      → ◌≡◌ {A = Fallible String Found × W} (sort_link host name control id link f w) (ok g, w')
      → IsPlaced name id g × Keeps f g
  sort_link-IsPlaced none id link f g w w' e =
      let (rs, listed, e₁) =
        >>=-ends (host.route_list link.index)
          (λ rs.
            add_control_routes host link.index control
            >> pure (record f {
              external_routing = insert id (get_docker_routes rs) f.external_routing;
            }))
          w e in
      let w₁ = (host.route_list link.index w).1 in
      let made : Found = record f {
        external_routing = insert id (get_docker_routes rs) f.external_routing;
      } in
      let (u, added, e₂) =
        >>=-ends (add_control_routes host link.index control) (λ _. pure made) w₁ e₁ in
      subst
        (λ (r : Fallible String Found × W). elim r.0 [
          | ok o ↦ IsPlaced none id o × Keeps f o
          | err x ↦ Unit {0}
          | panic ↦ Unit {0}
        ])
        e₂
        (
          IsHeld-inserted id (get_docker_routes rs) f.external_routing,
          (λ k h. h, λ k h. IsHeld-insert id (get_docker_routes rs) f.external_routing k h),
        )
  sort_link-IsPlaced (some name) id link f g w w' e =
      let made : Found = record f { active_links = insert name link f.active_links } in
      let (u, shaped, e₁) =
        >>=-ends (of_call (new_netlink_link host.netlink link.index)) (λ _. pure made) w e in
      subst
        (λ (r : Fallible String Found × W). elim r.0 [
          | ok o ↦ IsPlaced (some name) id o × Keeps f o
          | err x ↦ Unit {0}
          | panic ↦ Unit {0}
        ])
        e₁
        (
          IsHeld-inserted name link f.active_links,
          (λ k h. IsHeld-insert name link f.active_links k h, λ k h. h),
        )

  sort_links-Keeps :
      (names : Map String) (links : Map Link) (f g : Found) (w w' : W)
      → ◌≡◌ {A = Fallible String Found × W} (sort_links host names control links f w) (ok g, w')
      → All (λ (entry : String × Link). IsPlaced (lookup entry.0 names) entry.0 g) links × Keeps f g
  unfolding sort_links
  sort_links-Keeps names [] f g w w' e =
      subst
        (λ (r : Fallible String Found × W). elim r.0 [
          | ok o ↦ Unit {0} × Keeps f o
          | err x ↦ Unit {0}
          | panic ↦ Unit {0}
        ])
        e (tt, (λ k h. h, λ k h. h))
  sort_links-Keeps names ((id, link) ∷ links) f g w w' e =
      let name = lookup id names in
      let (f₁, sorted, e₁) =
        >>=-ends (sort_link host name control id link f) (sort_links host names control links) w
          e in
      let w₁ = (sort_link host name control id link f w).1 in
      let (placed, kept) = sort_link-IsPlaced name id link f f₁ w w₁ (ap (λ r. (r, w₁)) sorted) in
      let (others, kept') = sort_links-Keeps names links f₁ g w₁ w' e₁ in
      (
        (IsPlaced-kept name id f₁ g kept' placed, others),
        (λ k h. kept'.0 k (kept.0 k h), λ k h. kept'.1 k (kept.1 k h)),
      )

  -- When the reactor has gone over the links of a container without an error, each link stands
  -- among the links that the tests shape, if its network is one of the run's, and its routes are
  -- kept otherwise.
  pub sort_links-AllPlaced :
      (names : Map String) (links : Map Link) (f g : Found) (w w' : W)
      → ◌≡◌ {A = Fallible String Found × W} (sort_links host names control links f w) (ok g, w')
      → All (λ (entry : String × Link). IsPlaced (lookup entry.0 names) entry.0 g) links
  sort_links-AllPlaced names links f g w w' e = (sort_links-Keeps names links f g w w' e).0
