-- ===== src/Sidecar/Routes.antt =====
-- pkg/sidecar/route.go: the routes of the other networks, which a routing policy takes away and
-- gives back.
use testground.Base.{
  ◌≡◌, refl, sym, ap, ◌∙◌, subst, map, Option-cases, inl, inr, String, Bool, true, false, Option,
  none, some, List, [], ◌∷◌, ◌++◌, All, arith, if◌then◌else◌, Bool-cases,
}
use testground.Base.Maps.{Map}
use testground.Sidecar.{Call, Route, unspecified, Netlink}

-- the struct `route`
pub record Routing : Type 0 where
  pub enabled : Bool
  pub routes : List Route

pub data Policy : Type 0 where
  allow_all deny_all : Policy
  other : String → Policy

abbrev is_default : Route → Bool
is_default r = elim r.dst [ some d ↦ false | none ↦ elim r.src [ some s ↦ false | none ↦ true ] ]

-- the zero Route
abbrev no_route : Route
no_route = record { dst = none; src = none; kind = unspecified; rest = "" }

default_route : List Route → Route → Route
default_route [] found = found
default_route (r ∷ rs) found = default_route rs (if is_default r then r else found)

others : List Route → List Route
others [] = []
others (r ∷ rs) = if is_default r then others rs else r ∷ others rs

-- getDockerRoutes of the routes that the kernel lists: the default route stands last
unfoldable pub get_docker_routes : List Route → Routing
unfolding default_route others
get_docker_routes rs = record {
  enabled = true;
  routes = others rs ++ default_route rs no_route ∷ [];
}

defaults : List Route → List Route
defaults [] = []
defaults (r ∷ rs) = if is_default r then r ∷ defaults rs else defaults rs

-- getK8sRoutes
unfoldable pub get_k8s_routes : List Route → Routing
unfolding defaults
get_k8s_routes rs = record { enabled = true; routes = defaults rs }

module _ {F W : Type 0} (nl : Netlink F W) where
  open nl use {route_add, route_del}

  -- the loops over the routes: the first error ends them
  unfoldable pub each_route : (Route → Call W) → List Route → Call W
  each_route f [] w = (none, w)
  each_route f (r ∷ rs) w =
      let (e, w') = f r w in elim e [ none ↦ each_route f rs w' | some x ↦ (some x, w') ]

  abbrev switched : Routing → Bool → Option String × W → Option String × Routing × W
  switched routing on (none, w) = (none, record routing { enabled = on }, w)
  switched routing on (some e, w) = (some e, routing, w)

  -- disable
  unfoldable pub disable : Routing → W → Option String × Routing × W
  unfolding each_route
  disable routing w =
      if routing.enabled
      then switched routing false (each_route route_del routing.routes w)
      else (none, routing, w)

  -- enable
  unfoldable pub enable : Routing → W → Option String × Routing × W
  unfolding each_route
  enable routing w =
      if routing.enabled
      then (none, routing, w)
      else switched routing true (each_route route_add routing.routes w)

  abbrev apply_policy : Policy → Routing → W → Option String × Routing × W
  apply_policy allow_all = enable
  apply_policy deny_all = disable
  apply_policy (other s) = disable

  abbrev add_error : Option String → List String → List String
  add_error none errs = errs
  add_error (some e) errs = e ∷ errs

  -- handleRoutingPolicy: the errors of the loop, of which none is nil
  unfoldable pub handle_routing_policy : Map Routing → Policy → W → List String × Map Routing × W
  unfolding enable disable
  handle_routing_policy [] policy w = ([], [], w)
  handle_routing_policy ((id, routing) ∷ routes) policy w =
      let (e, routing', w') = apply_policy policy routing w in
      let (errs, routes', w'') = handle_routing_policy routes policy w' in
      (add_error e errs, (id, routing') ∷ routes', w'')

  abbrev pub wants : Policy → Bool
  wants allow_all = true
  wants deny_all = false
  wants (other s) = false

  abbrev pub IsSettled : Policy → Map Routing → Type 0
  IsSettled policy = All (λ (entry : String × Routing). entry.1.enabled ≡ wants policy)

  switched-enabled :
      (routing : Routing) (on : Bool) (r : Option String × W)
      → (switched routing on r).0 ≡ none
      → (switched routing on r).1.enabled ≡ on
  switched-enabled routing on (none, w) h = refl
  switched-enabled routing on (some e, w) h = cc h

  disable_on :
      (routing : Routing) (w : W)
      → routing.enabled ≡ true
      → ◌≡◌ {A = Option String × Routing × W}
          (disable routing w)
          (switched routing false (each_route route_del routing.routes w))
  unfolding disable
  disable_on routing w on = rw on refl

  disable_off :
      (routing : Routing) (w : W)
      → routing.enabled ≡ false
      → ◌≡◌ {A = Option String × Routing × W} (disable routing w) (none, routing, w)
  unfolding disable
  disable_off routing w off = rw off refl

  enable_on :
      (routing : Routing) (w : W)
      → routing.enabled ≡ true
      → ◌≡◌ {A = Option String × Routing × W} (enable routing w) (none, routing, w)
  unfolding enable
  enable_on routing w on = rw on refl

  enable_off :
      (routing : Routing) (w : W)
      → routing.enabled ≡ false
      → ◌≡◌ {A = Option String × Routing × W}
          (enable routing w)
          (switched routing true (each_route route_add routing.routes w))
  unfolding enable
  enable_off routing w off = rw off refl

  disable-settled :
      (routing : Routing) (w : W)
      → (disable routing w).0 ≡ none
      → (disable routing w).1.enabled ≡ false
  disable-settled routing w h = elim (Bool-cases routing.enabled) [
    | inl on ↦ rw (disable_on routing w on) (
        switched-enabled routing false (each_route route_del routing.routes w)
          (rw (disable_on routing w on) at h))
    | inr off ↦ rw (disable_off routing w off) off
  ]

  enable-settled :
      (routing : Routing) (w : W)
      → (enable routing w).0 ≡ none
      → (enable routing w).1.enabled ≡ true
  enable-settled routing w h = elim (Bool-cases routing.enabled) [
    | inl on ↦ rw (enable_on routing w on) on
    | inr off ↦ rw (enable_off routing w off) (
        switched-enabled routing true (each_route route_add routing.routes w)
          (rw (enable_off routing w off) at h))
  ]

  apply_policy-settled :
      (policy : Policy) (routing : Routing) (w : W)
      → (apply_policy policy routing w).0 ≡ none
      → (apply_policy policy routing w).1.enabled ≡ wants policy
  apply_policy-settled allow_all routing w h = enable-settled routing w h
  apply_policy-settled deny_all routing w h = disable-settled routing w h
  apply_policy-settled (other s) routing w h = disable-settled routing w h

  apply_policy-again :
      (policy : Policy) (routing : Routing) (w : W)
      → routing.enabled ≡ wants policy
      → ◌≡◌ {A = Option String × Routing × W} (apply_policy policy routing w) (none, routing, w)
  apply_policy-again allow_all routing w h = enable_on routing w h
  apply_policy-again deny_all routing w h = disable_off routing w h
  apply_policy-again (other s) routing w h = disable_off routing w h

  no_error :
      (e : Option String) (errs : List String) → add_error e errs ≡ [] → (e ≡ none) × (errs ≡ [])
  no_error none errs h = (refl, h)
  no_error (some x) errs h = cc h

  settles :
      (policy : Policy) (routes : Map Routing) (w : W)
      → (handle_routing_policy routes policy w).0 ≡ []
      → IsSettled policy (handle_routing_policy routes policy w).1
  unfolding handle_routing_policy
  settles policy [] w h = tt
  settles policy ((id, routing) ∷ routes) w h =
      let (e, routing', w') = apply_policy policy routing w in
      let (first, rest) = no_error e (handle_routing_policy routes policy w').0 h in
      (apply_policy-settled policy routing w first, settles policy routes w' rest)

  settled :
      (policy : Policy) (routes : Map Routing) (w : W)
      → IsSettled policy routes
      → ◌≡◌ {A = List String × Map Routing × W}
          (handle_routing_policy routes policy w)
          ([], routes, w)
  unfolding handle_routing_policy
  settled policy [] w h = refl
  settled policy ((id, routing) ∷ routes) w (h, hs) =
      rw (apply_policy-again policy routing w h) (rw (settled policy routes w hs) refl)

  -- each of these calls succeeds, one after the other, and they lead from the one state to the other
  abbrev pub Performs : List (Call W) → W → W → Type 0
  Performs [] w w' = w' ≡ w
  Performs (f ∷ fs) w w' = ((f w).0 ≡ none) × Performs fs (f w).1 w'

  -- the calls of the kernel for one network: none where it is as the policy wants it
  abbrev pub planned_one : Policy → Routing → List (Call W)
  planned_one allow_all routing = if routing.enabled then [] else map route_add routing.routes
  planned_one deny_all routing = if routing.enabled then map route_del routing.routes else []
  planned_one (other s) routing = if routing.enabled then map route_del routing.routes else []

  abbrev pub planned : Policy → Map Routing → List (Call W)
  planned policy [] = []
  planned policy ((id, routing) ∷ routes) = planned_one policy routing ++ planned policy routes

  Performs-append :
      (fs gs : List (Call W)) (w w' w'' : W)
      → Performs fs w w'
      → Performs gs w' w''
      → Performs (fs ++ gs) w w''
  Performs-append [] gs w w' w'' first rest = subst (λ (x : W). Performs gs x w'') first rest
  Performs-append (f ∷ fs) gs w w' w'' (good, first) rest =
      (good, Performs-append fs gs (f w).1 w' w'' first rest)

  each_route-next :
      (f : Route → Call W) (r : Route) (rs : List Route) (w : W)
      → (f r w).0 ≡ none
      → ◌≡◌ {A = Option String × W} (each_route f (r ∷ rs) w) (each_route f rs (f r w).1)
  unfolding each_route
  each_route-next f r rs w good = ground (arith, good)

  each_route-stop :
      (f : Route → Call W) (r : Route) (rs : List Route) (w : W) (e : String)
      → (f r w).0 ≡ some e
      → (each_route f (r ∷ rs) w).0 ≡ some e
  unfolding each_route
  each_route-stop f r rs w e bad = ground (arith, bad)

  each_route-Performs :
      (f : Route → Call W) (rs : List Route) (w : W)
      → (each_route f rs w).0 ≡ none
      → Performs (map f rs) w (each_route f rs w).1
  unfolding each_route
  each_route-Performs f [] w h = refl
  each_route-Performs f (r ∷ rs) w h = elim (Option-cases (f r w).0) [
    | inl good ↦
        let next = each_route-next f r rs w good in
        (
          good,
          subst (λ (x : Option String × W). Performs (map f rs) (f r w).1 x.1) (sym next)
              (each_route-Performs f rs (f r w).1
                (sym (ap (λ (x : Option String × W). x.0) next) ∙ h)),
        )
    | inr (e, bad) ↦ cc (each_route-stop f r rs w e bad, h)
  ]

  switched-Performs :
      (f : Route → Call W) (routing : Routing) (on : Bool) (w : W)
      → (switched routing on (each_route f routing.routes w)).0 ≡ none
      → Performs (map f routing.routes) w (switched routing on (each_route f routing.routes w)).2
  switched-Performs f routing on w h =
      go (each_route f routing.routes w) h (each_route-Performs f routing.routes w)
    where
      go :
          (r : Option String × W)
          → (switched routing on r).0 ≡ none
          → (r.0 ≡ none → Performs (map f routing.routes) w r.1)
          → Performs (map f routing.routes) w (switched routing on r).2
      go (none, w') h performs = performs refl
      go (some e, w') h performs = cc h

  -- a routing of which nothing, or everything, is planned
  quiet :
      (fs : List (Call W)) (routing : Routing) (w : W) (r : Option String × Routing × W)
      → r ≡ (none, routing, w)
      → fs ≡ []
      → Performs fs w r.2
  quiet fs routing w r e h = rw e (rw h refl)

  busy :
      (f : Route → Call W) (fs : List (Call W)) (routing : Routing) (on : Bool) (w : W)
      (r : Option String × Routing × W)
      → r ≡ switched routing on (each_route f routing.routes w)
      → fs ≡ map f routing.routes
      → r.0 ≡ none
      → Performs fs w r.2
  busy f fs routing on w r e h good = rw h (
      rw e (
        switched-Performs f routing on w
          (sym (ap (λ (x : Option String × Routing × W). x.0) e) ∙ good)))

  enable-Performs :
      (routing : Routing) (w : W)
      → (enable routing w).0 ≡ none
      → Performs (planned_one allow_all routing) w (enable routing w).2
  enable-Performs routing w h = elim (Bool-cases routing.enabled) [
    | inl on ↦ quiet _ routing w _ (enable_on routing w on) (ground (arith, on))
    | inr off ↦ busy route_add _ routing true w _ (enable_off routing w off) (ground (arith, off)) h
  ]

  disable-Performs :
      (routing : Routing) (w : W)
      → (disable routing w).0 ≡ none
      → Performs (planned_one deny_all routing) w (disable routing w).2
  disable-Performs routing w h = elim (Bool-cases routing.enabled) [
    | inl on ↦ busy route_del _ routing false w _ (disable_on routing w on) (ground (arith, on)) h
    | inr off ↦ quiet _ routing w _ (disable_off routing w off) (ground (arith, off))
  ]

  apply_policy-Performs :
      (policy : Policy) (routing : Routing) (w : W)
      → (apply_policy policy routing w).0 ≡ none
      → Performs (planned_one policy routing) w (apply_policy policy routing w).2
  apply_policy-Performs allow_all routing w h = enable-Performs routing w h
  apply_policy-Performs deny_all routing w h = disable-Performs routing w h
  apply_policy-Performs (other s) routing w h = disable-Performs routing w h

  performs :
      (policy : Policy) (routes : Map Routing) (w : W)
      → (handle_routing_policy routes policy w).0 ≡ []
      → Performs (planned policy routes) w (handle_routing_policy routes policy w).2
  unfolding handle_routing_policy
  performs policy [] w h = refl
  performs policy ((id, routing) ∷ routes) w h =
      let (e, routing', w') = apply_policy policy routing w in
      let (first, rest) = no_error e (handle_routing_policy routes policy w').0 h in
      Performs-append (planned_one policy routing) (planned policy routes) w w' _
        (apply_policy-Performs policy routing w first) (performs policy routes w' rest)

  -- A routing policy that is applied without an error has added, for AllowAll, each route of the
  -- disabled routings, and deleted, for any other policy, each one of the enabled routings, each by
  -- a call of the kernel that succeeded, in this order and without any other call. Every routing is
  -- then enabled or disabled as the policy wants it, and applying it again makes no call and
  -- changes nothing.
  pub handle_routing_policy-settles :
      (policy : Policy) (routes : Map Routing) (w : W)
      → (handle_routing_policy routes policy w).0 ≡ []
      → let (errs, routes', w') = handle_routing_policy routes policy w in
        Performs (planned policy routes) w w'
        × IsSettled policy routes'
        × ◌≡◌ {A = List String × Map Routing × W}
            (handle_routing_policy routes' policy w')
            ([], routes', w')
  handle_routing_policy-settles policy routes w h =
      let now = settles policy routes w h in
      (
        performs policy routes w h,
        now,
        settled policy (handle_routing_policy routes policy w).1 _ now,
      )

  each_failed :
      (r s : Route) (rest : List Route) (w : W) (e : String)
      → (route_del r w).0 ≡ none
      → (route_del s (route_del r w).1).0 ≡ some e
      → ◌≡◌ {A = Option String × W}
          (each_route route_del (r ∷ s ∷ rest) w)
          (some e, (route_del s (route_del r w).1).1)
  unfolding each_route
  each_failed r s rest w e deleted kept = ground arith

  -- A disable that deletes its first route and fails at the second leaves the routing enabled, so
  -- that a later enable makes no call, and the deleted route stays away.
  pub enable-disable_failed :
      (routing : Routing) (r s : Route) (rest : List Route) (w : W) (e : String)
      → routing.enabled ≡ true
      → routing.routes ≡ r ∷ s ∷ rest
      → (route_del r w).0 ≡ none
      → (route_del s (route_del r w).1).0 ≡ some e
      → let after = (route_del s (route_del r w).1).1 in
        ◌≡◌ {A = Option String × Routing × W} (disable routing w) (some e, routing, after)
        × ◌≡◌ {A = Option String × Routing × W} (enable routing after) (none, routing, after)
  enable-disable_failed routing r s rest w e on routes deleted kept = (
    disable_on routing w on
        ∙ ap (switched routing false) (
            ap (λ (rs : List Route). each_route route_del rs w) routes
            ∙ each_failed r s rest w e deleted kept),
    enable_on routing _ on,
  )
