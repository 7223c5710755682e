-- ===== src/Builder/DockerGo.antt =====
-- pkg/build/docker_go.go: Build, of a configuration of its own type and with a docker client that
-- could be made. The calls of docker, of the go tool and of the file system are a record over an
-- unknown state. The output that Build returns beside the error of ImageTag is left out.
use testground.Base.{
  String, Bool, true, false, not, ◌&&◌, List, [], ◌∷◌, ◌++◌, str_eq, if◌then◌else◌,
}
use testground.Base.Maps.{Map, insert}
use testground.Base.Errors.{Fallible, ok, err, fail_if}
use testground.Base.Actions.{Action, pure, lift, ◌>>=◌, ◌>>◌}
use testground.Builder.GoProxy.{ProxyConfig, ProxyHost, GoProxy, setup_go_proxy}
use testground.Builder.CacheImage.{
  ImageHost, has_build_cache_image, update_build_cache_image, parse_build_cache_output_image,
}

-- DockerGoBuilderConfig, less the extensions of the Dockerfile
pub record GoConfig : Type 0 where
  pub module_path : String
  pub exec_pkg : String
  pub fresh_gomod : Bool
  pub path : String
  pub modfile : String
  pub proxy : ProxyConfig
  pub runtime_image : String
  pub build_base_image : String
  pub skip_runtime_image : Bool
  pub enable_go_build_cache : Bool
  pub enable_cgo : Bool

-- api.BuildInput, by what the builder uses of it
pub record GoInput : Type 0 where
  pub build_id : String
  pub test_plan : String
  pub selectors : List String
  pub dependencies : Map (String × String)  -- module, to target and version
  pub has_sdk : Bool

-- types.ImageBuildOptions
pub record ImageOptions : Type 0 where
  pub tag : String
  pub build_args : Map String
  pub network_mode : String

-- the texts that the code formats
pub record GoTexts : Type 0 where
  pub default_base_image : String  -- DefaultGoBuildBaseImage
  pub cache_image : String → String  -- "tg-gobuildcache-%s"
  pub plan_tag : String → String → String  -- "tg-plan-%s:%s"
  pub sum_of : String → String  -- the modfile without its extension, and ".sum"
  pub replacement : String → String → String → String  -- "-replace=%s=%s@%s"
  pub tags_of : List String → String  -- "-tags " and the selectors

pub record GoHost (W : Type 0) : Type 0 where
  pub proxy_host : ProxyHost W
  pub images : ImageHost W
  pub write_dockerfile : GoConfig → Bool → Action W String (Unit {0})
  pub clean_gomod : Action W String (Unit {0})  -- removes go.mod and go.sum where they are
  pub mod_init : String → Action W String (Unit {0})
  pub mod_edit : List String → Action W String (Unit {0})
  pub build_image : ImageOptions → Action W String (List String)  -- the lines of its output
  pub image_id : String → Action W String String
  pub list_dependencies : String → Action W String (Map String)

pub record GoOutput : Type 0 where
  pub artifact_path : String
  pub dependencies : Map String

module _ (texts : GoTexts) where
  -- modfile and modfileSum
  unfoldable pub modfiles : GoConfig → Fallible String (String × String)
  modfiles cfg =
      if str_eq cfg.modfile ""
      then ok ("go.mod", "go.sum")
      else if cfg.fresh_gomod
      then err "fresh_gomod option is not supported when a custom modfile is used"
      else ok (cfg.modfile, texts.sum_of cfg.modfile)

  -- the replace directives of the dependencies
  unfoldable pub replacements : Map (String × String) → List String
  replacements [] = []
  replacements ((name, (target, version)) ∷ deps) =
      texts.replacement name (if str_eq target "" then name else target) version ∷ replacements deps

  abbrev pub all_replacements : GoInput → List String
  all_replacements input =
      replacements input.dependencies
      ++ (if input.has_sdk then "-replace=github.com/testground/sdk-go=../sdk" ∷ [] else [])

  abbrev pub edits : GoConfig → List String → List String
  edits cfg [] = []
  edits cfg (r ∷ rs) = (r ∷ rs) ++ (if str_eq cfg.modfile "" then [] else cfg.modfile ∷ [])

  abbrev pub base_image_of : GoConfig → String
  base_image_of cfg =
      if str_eq cfg.build_base_image "" then texts.default_base_image else cfg.build_base_image

  abbrev pub check_base : GoConfig → Fallible String (Unit {0})
  check_base cfg =
      fail_if
        (cfg.enable_go_build_cache && not (str_eq (base_image_of cfg) texts.default_base_image))
        "unable to use go build cache with a custom build image"

  abbrev set_if : Bool → String → String → Map String → Map String
  set_if b k v m = if b then insert k v m else m

  -- the arguments of the build
  unfoldable pub build_args : GoConfig → GoInput → GoProxy → String × String → String → Map String
  build_args cfg input proxy (modfile, modfile_sum) base_image =
      set_if (elim input.selectors [ [] ↦ false | s ∷ ss ↦ true ]) "BUILD_TAGS"
        (texts.tags_of input.selectors)
        (insert "BUILD_BASE_IMAGE" base_image (
          set_if (not (str_eq cfg.runtime_image "")) "RUNTIME_IMAGE" cfg.runtime_image (
            set_if (not (str_eq cfg.exec_pkg "")) "TESTPLAN_EXEC_PKG" cfg.exec_pkg (
              ("GO_PROXY", proxy.proxy_url)
              ∷ ("MODFILE", modfile)
              ∷ ("MODFILE_SUM", modfile_sum)
              ∷ ("PLAN_PATH", cfg.path)
              ∷ []))))

  abbrev pub image_options : GoConfig → GoInput → GoProxy → String × String → String → ImageOptions
  image_options cfg input proxy files base_image = record {
    tag = input.build_id;
    build_args = build_args cfg input proxy files base_image;
    network_mode = if str_eq proxy.build_network_id "" then "host" else "testground-build";
  }

  module _ {W : Type 0} (host : GoHost W) where
    abbrev pub when : Bool → Action W String (Unit {0}) → Action W String (Unit {0})
    when true m = m
    when false m = pure tt

    -- the fresh go.mod
    abbrev pub refresh_gomod : GoConfig → Action W String (Unit {0})
    refresh_gomod cfg = when cfg.fresh_gomod (host.clean_gomod >> host.mod_init cfg.module_path)

    abbrev pub edit_gomod : List String → Action W String (Unit {0})
    edit_gomod [] = pure tt
    edit_gomod (r ∷ rs) = host.mod_edit (r ∷ rs)

    -- whether the image of the cache is there
    abbrev pub find_cache : GoConfig → GoInput → Action W String Bool
    find_cache cfg input =
        if cfg.enable_go_build_cache
        then has_build_cache_image host.images (texts.cache_image input.test_plan)
        else pure false

    -- the update of the cache's image, whose errors are logged
    unfoldable pub update_cache : String → String → W → W
    update_cache image id w =
        if str_eq id "" then w else (update_build_cache_image host.images image id w).1

    abbrev pub keep_cache : GoConfig → GoInput → Bool → List String → W → W
    keep_cache cfg input cached output w =
        if cfg.enable_go_build_cache && not cached
        then update_cache (texts.cache_image input.test_plan)
            (parse_build_cache_output_image output) w
        else w

    -- from the built image on
    abbrev pub finish : GoConfig → GoInput → Bool → List String → Action W String GoOutput
    finish cfg input cached output w =
        (do
          id ← host.image_id input.build_id
          deps ← host.list_dependencies id
          host.images.image_tag id (texts.plan_tag input.test_plan id)
          pure (record { artifact_path = id; dependencies = deps }))
          (keep_cache cfg input cached output w)

    abbrev pub build_on :
        GoConfig → GoInput → GoProxy → String × String → Bool → Action W String GoOutput
    build_on cfg input proxy files cached = do
      output ← host.build_image (
          image_options cfg input proxy files
            (if cached then texts.cache_image input.test_plan else base_image_of cfg))
      finish cfg input cached output

    abbrev pub build_from :
        GoConfig → GoInput → GoProxy → String × String → Action W String GoOutput
    build_from cfg input proxy files = do
      refresh_gomod cfg
      edit_gomod (edits cfg (all_replacements input))
      lift (check_base cfg)
      cached ← find_cache cfg input
      build_on cfg input proxy files cached

    -- Build
    unfoldable pub build_go : GoConfig → GoInput → Action W String GoOutput
    unfolding modfiles update_cache
    build_go cfg input w =
        let (proxy, w') = setup_go_proxy host.proxy_host cfg.proxy w in
        (do
          host.write_dockerfile cfg input.has_sdk
          files ← lift (modfiles cfg)
          build_from cfg input proxy files)
          w'
