-- ===== src/Builder/GoProxy.antt =====
-- pkg/build/docker_go.go: setupGoProxy. Docker is a record of its calls over an unknown state; an
-- error of a call is its text, and the words that a warning puts around it are left out.
use testground.Base.{
  ◌≡◌, ◌≢◌, refl, ◌⊎◌, inl, inr, String, Option, none, some, str_eq, if◌then◌else◌, Bool-cases,
  arith, eq_iff,
}
use testground.Builder.Text.{trim_space}

-- what of the builder's configuration concerns the proxy
pub record ProxyConfig : Type 0 where
  pub go_proxy_mode : String
  pub go_proxy_url : String

-- an effect that returns a value or an error
abbrev Try : Type 0 → Type 0 → Type 0
Try W A = W → (A ⊎ String) × W

pub record ProxyHost (W : Type 0) : Type 0 where
  pub ensure_network : Try W String  -- the bridge network of the builds, by its identifier
  pub ensure_volume : Try W (Unit {0})
  pub ensure_container : String → Try W (Unit {0})  -- on a network

-- what setupGoProxy returns
pub record GoProxy : Type 0 where
  pub proxy_url : String
  pub build_network_id : String
  pub warn : Option String
  pub mode_after : String  -- cfg.GoProxyMode when it returns

-- the cases of the switch; "local" is one of the others
pub data ProxyMode : Type 0 where
  direct remote local : ProxyMode

unfoldable pub mode_of : String → ProxyMode
unfolding trim_space
mode_of text =
    if str_eq (trim_space text) "direct"
    then direct
    else if str_eq (trim_space text) "remote"
    then remote
    else local

-- the case of "remote"
unfoldable pub remote_proxy : ProxyConfig → GoProxy
remote_proxy cfg =
    if str_eq cfg.go_proxy_url ""
    then record {
      proxy_url = "direct";
      build_network_id = "";
      warn = some "[go_proxy_mode=remote] no proxy URL was supplied";
      mode_after = cfg.go_proxy_mode;
    }
    else record {
      proxy_url = cfg.go_proxy_url;
      build_network_id = "";
      warn = none;
      mode_after = cfg.go_proxy_mode;
    }

module _ {W : Type 0} (host : ProxyHost W) where
  abbrev local_result : ProxyConfig → String → String → Option String → GoProxy
  local_result cfg network url warning = record {
    proxy_url = url;
    build_network_id = network;
    warn = warning;
    mode_after = cfg.go_proxy_mode;
  }

  abbrev on_container : ProxyConfig → String → (Unit {0} ⊎ String) × W → GoProxy × W
  on_container cfg network (inl u, w) =
      (local_result cfg network "http://testground-goproxy:8081" none, w)
  on_container cfg network (inr e, w) = (local_result cfg network "direct" (some e), w)

  abbrev on_volume : ProxyConfig → String → (Unit {0} ⊎ String) × W → GoProxy × W
  on_volume cfg network (inl u, w) = on_container cfg network (host.ensure_container network w)
  on_volume cfg network (inr e, w) = (local_result cfg network "direct" (some e), w)

  -- only an error of the network writes to the configuration
  abbrev on_network : ProxyConfig → (String ⊎ String) × W → GoProxy × W
  on_network cfg (inl network, w) = on_volume cfg network (host.ensure_volume w)
  on_network cfg (inr e, w) =
      (local_result (record cfg { go_proxy_mode = "direct" }) "" cfg.go_proxy_url (some e), w)

  -- the case of "local", and of every other mode
  unfoldable pub local_proxy : ProxyConfig → W → GoProxy × W
  local_proxy cfg w = on_network cfg (host.ensure_network w)

  -- the switch over the modes
  unfoldable pub proxy_by : ProxyMode → ProxyConfig → W → GoProxy × W
  unfolding remote_proxy local_proxy
  proxy_by direct cfg w = (
    record {
      proxy_url = "direct";
      build_network_id = "";
      warn = none;
      mode_after = cfg.go_proxy_mode;
    },
    w,
  )
  proxy_by remote cfg w = (remote_proxy cfg, w)
  proxy_by local cfg w = local_proxy cfg w

  -- setupGoProxy
  unfoldable pub setup_go_proxy : ProxyConfig → W → GoProxy × W
  unfolding mode_of proxy_by
  setup_go_proxy cfg w = proxy_by (mode_of cfg.go_proxy_mode) cfg w

module _ {W : Type 0} (host : ProxyHost W) where
  -- a proxy that is as the mode wants it: for a local one its container was started, as the last
  -- call of docker, on the network of the builds, which the result names
  abbrev pub IsWanted : ProxyMode → ProxyConfig → W → GoProxy → W → Type 0
  IsWanted direct cfg w p w' = (p.proxy_url ≡ "direct") × (p.build_network_id ≡ "") × (w' ≡ w)
  IsWanted remote cfg w p w' =
      (p.proxy_url ≡ cfg.go_proxy_url) × (p.proxy_url ≢ "") × (p.build_network_id ≡ "") × (w' ≡ w)
  IsWanted local cfg w p w' =
      (p.proxy_url ≡ "http://testground-goproxy:8081")
      × (w₁ : W) × (w₂ : W) × (host.ensure_network w ≡ (inl p.build_network_id, w₁))
      × (host.ensure_volume w₁ ≡ (inl tt, w₂))
      × (host.ensure_container p.build_network_id w₂ ≡ (inl tt, w'))

  -- the network is there, and the call for the volume or the one for the container was the last,
  -- with the error `e`
  abbrev pub Failed : W → GoProxy → W → String → Type 0
  Failed w p w' e =
      (w₁ : W) × (host.ensure_network w ≡ (inl p.build_network_id, w₁))
      × ((host.ensure_volume w₁ ≡ (inr e, w'))
          ⊎ ((w₂ : W) × (host.ensure_volume w₁ ≡ (inl tt, w₂))
              × (host.ensure_container p.build_network_id w₂ ≡ (inr e, w'))))

  -- the direct mode after a warning
  abbrev pub IsDirect : ProxyMode → ProxyConfig → W → GoProxy → W → String → Type 0
  IsDirect direct cfg w p w' e = ⊥
  IsDirect remote cfg w p w' e =
      (cfg.go_proxy_url ≡ "") × (p.proxy_url ≡ "direct") × (p.build_network_id ≡ "") × (w' ≡ w)
  IsDirect local cfg w p w' e = (p.proxy_url ≡ "direct") × Failed w p w' e

  -- the network failed: the configured address is returned, and docker is not called again
  abbrev pub NoNetwork : ProxyMode → ProxyConfig → W → GoProxy → W → String → Type 0
  NoNetwork mode cfg w p w' e =
      (mode ≡ local)
      × (host.ensure_network w ≡ (inr e, w'))
      × (p.proxy_url ≡ cfg.go_proxy_url)
      × (p.build_network_id ≡ "")
      × (p.mode_after ≡ "direct")

  -- what the result says of the calls of docker that were made
  abbrev pub IsProxy : ProxyMode → ProxyConfig → W → GoProxy × W → Type 0
  IsProxy mode cfg w (p, w') =
      ((p.warn ≡ none) × (p.mode_after ≡ cfg.go_proxy_mode) × IsWanted mode cfg w p w')
      ⊎ ((e : String) × (p.warn ≡ some e)
          × (((p.mode_after ≡ cfg.go_proxy_mode) × IsDirect mode cfg w p w' e)
              ⊎ NoNetwork mode cfg w p w' e))

  module _ (cfg : ProxyConfig) (w : W) where
    on_container-IsProxy :
        (network : String) (w₁ w₂ : W)
        → host.ensure_network w ≡ (inl network, w₁)
        → host.ensure_volume w₁ ≡ (inl tt, w₂)
        → (r : (Unit {0} ⊎ String) × W) → host.ensure_container network w₂ ≡ r
        → IsProxy local cfg w (on_container host cfg network r)
    on_container-IsProxy network w₁ w₂ e₁ e₂ (inl _, w₃) e₃ =
        inl (refl, refl, (refl, w₁, w₂, e₁, e₂, e₃))
    on_container-IsProxy network w₁ w₂ e₁ e₂ (inr e, w₃) e₃ =
        inr (e, refl, inl (refl, (refl, (w₁, e₁, inr (w₂, e₂, e₃)))))

    on_volume-IsProxy :
        (network : String) (w₁ : W)
        → host.ensure_network w ≡ (inl network, w₁)
        → (r : (Unit {0} ⊎ String) × W) → host.ensure_volume w₁ ≡ r
        → IsProxy local cfg w (on_volume host cfg network r)
    on_volume-IsProxy network w₁ e₁ (inl _, w₂) e₂ =
        on_container-IsProxy network w₁ w₂ e₁ e₂ (host.ensure_container network w₂) refl
    on_volume-IsProxy network w₁ e₁ (inr e, w₂) e₂ =
        inr (e, refl, inl (refl, (refl, (w₁, e₁, inl e₂))))

    on_network-IsProxy :
        (r : (String ⊎ String) × W)
        → host.ensure_network w ≡ r
        → IsProxy local cfg w (on_network host cfg r)
    on_network-IsProxy (inl network, w₁) e₁ =
        on_volume-IsProxy network w₁ e₁ (host.ensure_volume w₁) refl
    on_network-IsProxy (inr e, w₁) e₁ = inr (e, refl, inr (refl, e₁, refl, refl, refl))

    remote_proxy-IsProxy : IsProxy remote cfg w (remote_proxy cfg, w)
    unfolding remote_proxy
    remote_proxy-IsProxy = elim (Bool-cases (str_eq cfg.go_proxy_url "")) [
      | inl unset ↦
          rw unset
            (inr (_, refl, inl (refl, ((eq_iff cfg.go_proxy_url "").0 unset, refl, refl, refl))))
      | inr set_to ↦
          rw set_to (
            inl (refl, refl, (refl, (λ e. ground (arith, eq_iff cfg.go_proxy_url "")), refl, refl)))
    ]

    proxy_by-IsProxy : (mode : ProxyMode) → IsProxy mode cfg w (proxy_by host mode cfg w)
    unfolding proxy_by local_proxy
    proxy_by-IsProxy direct = inl (refl, refl, (refl, refl, refl))
    proxy_by-IsProxy remote = remote_proxy-IsProxy
    proxy_by-IsProxy local = on_network-IsProxy (host.ensure_network w) refl

    -- setupGoProxy without a warning gives the proxy that the mode asks for: the direct mode, the
    -- configured address, which is not empty, or the local one after the network, the volume and
    -- the container were ensured, the container on the network that is returned. With a warning it
    -- gives the direct mode, where no address was configured, or where the volume or the container
    -- failed, with the network; but where the network failed it gives the configured address,
    -- whatever that is, though it sets the mode of the configuration to direct.
    pub setup_go_proxy-IsProxy :
        IsProxy (mode_of cfg.go_proxy_mode) cfg w (setup_go_proxy host cfg w)
    unfolding setup_go_proxy
    setup_go_proxy-IsProxy = proxy_by-IsProxy (mode_of cfg.go_proxy_mode)
