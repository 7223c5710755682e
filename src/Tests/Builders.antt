-- ===== src/Tests/Builders.antt =====
-- The builder of Go plans: with a docker whose network cannot be made, and with a cached image.
use testground.Base.{◌≡◌, refl, inr, inl, some, String, true, false, [], ◌∷◌}
use testground.Base.Errors.{Fallible, ok}
use testground.Builder.CacheImage.{has_build_cache_image}
use testground.Builder.DockerGo.{
  GoConfig, GoTexts, GoInput, GoHost, GoOutput, modfiles, replacements, build_go,
}
use testground.Builder.GoProxy.{
  ProxyConfig, ProxyHost, mode_of, IsProxy, setup_go_proxy, setup_go_proxy-IsProxy,
}

abbrev defaults : ProxyConfig
defaults = record { go_proxy_mode = "local"; go_proxy_url = "" }

abbrev no_network : ProxyHost (Unit {0})
no_network = record {
  ensure_network = λ w. (inr "no docker", w);
  ensure_volume = λ w. (inl tt, w);
  ensure_container = λ network w. (inl tt, w);
}

-- neither a proxy nor the direct mode
nothing_left : (setup_go_proxy no_network defaults tt).0 ≡ record {
  proxy_url = "";
  build_network_id = "";
  warn = some "no docker";
  mode_after = "direct";
}
unfolding setup_go_proxy
nothing_left = refl

setup_go_proxy-IsProxy_example :
    IsProxy no_network (mode_of "local") defaults tt (setup_go_proxy no_network defaults tt)
setup_go_proxy-IsProxy_example = setup_go_proxy-IsProxy no_network defaults tt

abbrev go_config : GoConfig
go_config = record {
  module_path = "m";
  exec_pkg = "";
  fresh_gomod = false;
  path = "./";
  modfile = "";
  proxy = record { go_proxy_mode = "direct"; go_proxy_url = "" };
  runtime_image = "";
  build_base_image = "";
  skip_runtime_image = false;
  enable_go_build_cache = true;
  enable_cgo = false;
}

abbrev go_texts : GoTexts
go_texts = record {
  default_base_image = "golang:1.16-buster";
  cache_image = λ plan. "cache";
  plan_tag = λ plan id. "tag";
  sum_of = λ file. "sum";
  replacement = λ name target version. "replace";
  tags_of = λ selectors. "tags";
}

abbrev go_input : GoInput
go_input = record {
  build_id = "b1";
  test_plan = "network";
  selectors = [];
  dependencies = ("m", ("", "v1")) ∷ [];
  has_sdk = false;
}

-- a docker that has the image of the cache
abbrev cached_host : GoHost (Unit {0})
cached_host = record {
  proxy_host = no_network;
  images = record {
    find_image = λ image w. (ok (some "cached"), w);
    image_remove = λ image w. (ok tt, w);
    image_tag = λ id tag w. (ok tt, w);
    image_list = λ w. (ok [], w);
  };
  write_dockerfile = λ cfg sdk w. (ok tt, w);
  clean_gomod = λ w. (ok tt, w);
  mod_init = λ path w. (ok tt, w);
  mod_edit = λ edits w. (ok tt, w);
  build_image = λ options w. (ok [], w);
  image_id = λ name w. (ok "sha256", w);
  list_dependencies = λ id w. (ok [], w);
}

abbrev go_output : GoOutput
go_output = record { artifact_path = "sha256"; dependencies = [] }

builds_go :
    ◌≡◌ {A = Fallible String GoOutput × Unit {0}}
      (build_go go_texts cached_host go_config go_input tt)
      (ok go_output, tt)
unfolding build_go setup_go_proxy modfiles has_build_cache_image replacements
builds_go = refl
