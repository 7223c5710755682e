-- ===== src/Sidecar.antt =====
-- pkg/sidecar/link.go: the shaping of a link by the traffic control of the kernel. The calls of
-- netlink and of docker are a record over an unknown state.
pub mod Routes
pub mod Shaping
pub mod Network
pub mod Handler
pub mod Retry
pub mod K8sNetwork
pub mod K8sReactor
pub mod DockerReactor
use testground.Base.{
  ℕ, ◌+◌, ◌-◌, ◌*◌, ◌/◌, ◌%◌, String, Bool, true, false, Option, none, some, List, [], ◌∷◌, ltb,
  ◌==◌, if◌then◌else◌,
}
use testground.Base.Int.{ℤ, pos, negsuc}

-- a call that returns an error or nil, and changes the state
abbrev pub Call : Type 0 → Type 0
Call W = W → Option String × W

-- `err := first(); if err != nil { return err }; return second()`
infixl 5 ◌then_call◌
abbrev pub ◌then_call◌ : {W : Type 0} → Call W → Call W → Call W
◌then_call◌ first second w =
    let (e, w') = first w in elim e [ none ↦ second w' | some x ↦ (some x, w') ]

pub data RouteKind : Type 0 where
  unspecified blackhole prohibit : RouteKind

-- netlink.Route, by what the code uses of it
pub record Route : Type 0 where
  pub dst : Option String
  pub src : Option String
  pub kind : RouteKind
  pub rest : String

-- the attributes of netlink's HTB class and netem discipline; F is float32
pub record Netem (F : Type 0) : Type 0 where
  pub latency : ℕ
  pub jitter : ℕ
  pub loss : F
  pub corrupt_prob : F
  pub corrupt_corr : F
  pub reorder_prob : F
  pub reorder_corr : F
  pub duplicate : F
  pub duplicate_corr : F

-- the handles of a queueing discipline or a class: link, parent, handle
pub record Place : Type 0 where
  pub link : ℕ
  pub parent : ℕ
  pub handle : ℕ

pub record Netlink (F : Type 0) (W : Type 0) : Type 0 where
  pub route_add : Route → Call W
  pub route_del : Route → Call W
  pub route_replace : Route → Call W
  pub htb_add : Place → ℕ → Call W  -- the root, with its default class
  pub class_add : Place → ℕ → Call W  -- with its rate
  pub class_change : Place → ℕ → Call W
  pub netem_add : Place → Call W
  pub netem_change : Place → Netem F → Call W

abbrev pub u16_mod : ℕ
u16_mod = 65536

abbrev pub u32_mod : ℕ
u32_mod = 4294967296

abbrev pub max_u64 : ℕ
max_u64 = 18446744073709551615

-- `netlink.MakeHandle`: both parts are uint16
abbrev pub make_handle : ℕ → ℕ → ℕ
make_handle major minor = major * u16_mod + minor

abbrev pub root_handle : ℕ
root_handle = make_handle 1 0

abbrev pub default_handle : ℕ
default_handle = make_handle 1 2

-- HANDLE_ROOT
abbrev handle_root : ℕ
handle_root = 4294967295

-- handlesForIndex; the sum of uint16 wraps around
unfoldable pub handles_for_index : ℕ → ℕ × ℕ
handles_for_index idx = let id = (idx + 2) % u16_mod in (make_handle 1 id, make_handle id 0)

-- toMicroseconds of a Duration in nanoseconds: the division goes towards zero, and the conversion
-- to uint32 wraps a negative number around
unfoldable pub to_microseconds : ℤ → ℕ
to_microseconds (pos t) = if ltb (u32_mod - 1) (t / 1000) then u32_mod - 1 else t / 1000
to_microseconds (negsuc t) = (u32_mod - (t + 1) / 1000 % u32_mod) % u32_mod

-- network.LinkShape
pub record LinkShape (F : Type 0) : Type 0 where
  pub latency : ℤ
  pub jitter : ℤ
  pub bandwidth : ℕ
  pub loss : F
  pub corrupt : F
  pub corrupt_corr : F
  pub reorder : F
  pub reorder_corr : F
  pub duplicate : F
  pub duplicate_corr : F

-- network.FilterAction; it is a number, which may be any
pub data FilterAction : Type 0 where
  accept reject drop : FilterAction
  other : ℕ → FilterAction

-- network.LinkRule: the subnet and the filter
pub record LinkRule : Type 0 where
  pub subnet : String
  pub filter : FilterAction

module _ {F W : Type 0} (nl : Netlink F W) where
  open nl use {
    route_add, route_del, route_replace, htb_add, class_add, class_change, netem_add, netem_change,
  }

  -- init
  unfoldable pub init_class : ℕ → ℕ → Call W
  unfolding handles_for_index
  init_class link idx =
      let (htb, netem) = handles_for_index idx in
      class_add (record { link = link; parent = root_handle; handle = htb }) max_u64
      then_call netem_add (record { link = link; parent = htb; handle = netem })

  -- NewNetlinkLink
  unfoldable pub new_netlink_link : ℕ → Call W
  unfolding init_class
  new_netlink_link link =
      htb_add (record { link = link; parent = handle_root; handle = root_handle }) default_handle
      then_call init_class link 0

  -- setHtb
  unfoldable pub set_htb : ℕ → ℕ → ℕ → Call W
  unfolding handles_for_index
  set_htb link idx rate =
      class_change
        (record { link = link; parent = root_handle; handle = (handles_for_index idx).0 }) rate

  -- setNetem
  unfoldable pub set_netem : ℕ → ℕ → Netem F → Call W
  unfolding handles_for_index
  set_netem link idx attrs =
      let (htb, netem) = handles_for_index idx in
      netem_change (record { link = link; parent = htb; handle = netem }) attrs

  abbrev pub netem_of : LinkShape F → Netem F
  netem_of shape = record {
    latency = to_microseconds shape.latency;
    jitter = to_microseconds shape.jitter;
    loss = shape.loss;
    corrupt_prob = shape.corrupt;
    corrupt_corr = shape.corrupt_corr;
    reorder_prob = shape.reorder;
    reorder_corr = shape.reorder_corr;
    duplicate = shape.duplicate;
    duplicate_corr = shape.duplicate_corr;
  }

  -- Shape: no bandwidth is the largest one
  unfoldable pub shape_link : ℕ → LinkShape F → Call W
  unfolding set_htb set_netem
  shape_link link shape =
      set_htb link 0 (if shape.bandwidth == 0 then max_u64 else shape.bandwidth)
      then_call set_netem link 0 (netem_of shape)

  abbrev rule_route : LinkRule → RouteKind → Route
  rule_route rule kind = record { dst = some rule.subnet; src = none; kind = kind; rest = "" }

  -- the errors of the deletions are dropped
  abbrev accept_rule : LinkRule → Call W
  accept_rule rule w =
      (none, (route_del (rule_route rule prohibit) (route_del (rule_route rule blackhole) w).1).1)

  abbrev pub add_rule : LinkRule → Call W
  add_rule rule = elim rule.filter [
    | accept ↦ accept_rule rule
    | reject ↦ route_replace (rule_route rule prohibit)
    | drop ↦ route_replace (rule_route rule blackhole)
    | other n ↦ route_replace (rule_route rule unspecified)
  ]

  -- AddRules
  unfoldable pub add_rules : List LinkRule → Call W
  add_rules [] w = (none, w)
  add_rules (rule ∷ rules) w = let rest = add_rules rules in (add_rule rule then_call rest) w
