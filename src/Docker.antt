-- ===== src/Docker.antt =====
-- pkg/docker: the helpers on docker's containers, networks, volumes and images. Docker is a record
-- of its calls over an unknown state; the output of an image's build is not modelled.
pub mod Deletion
pub mod Ensure
pub mod Watch
use testground.Base.{
  String, Bool, true, false, Option, none, some, List, [], ◌∷◌, str_eq, if◌then◌else◌, length, ◌==◌,
}
use text.Mathlib.Text.{starts_with}
use testground.Base.Errors.{Fallible, ok, err, panic}
use testground.Base.Actions.{Action, pure, raise, lift, ◌>>=◌, ◌>>◌}

pub record Container : Type 0 where
  pub id : String
  pub status : String

pub record Image : Type 0 where
  pub id : String
  pub repo_tags : List String

pub data ImageStrategy : Type 0 where
  without_image pull_image build_image : ImageStrategy

pub data DockerError : Type 0 where
  daemon : String → DockerError  -- an error of docker
  image_not_found : DockerError
  unexpected_volumes : String → DockerError

-- the calls of the docker client that the helpers make; the lists are those of docker's filters
pub record Client : Type 1 where
  pub World : Type 0
  pub container_list : String → Action World DockerError (List Container)
  pub container_inspect : String → Action World DockerError Container
  pub container_start : String → Action World DockerError (Unit {0})
  pub container_create : String → String → Action World DockerError String  -- name, image
  pub image_list : String → Action World DockerError (List Image)
  pub image_pull : String → Action World DockerError (Unit {0})
  pub image_build : String → Action World DockerError (Unit {0})
  pub network_list : String → Action World DockerError (List String)
  pub network_create : String → Action World DockerError String
  pub volume_list : String → Action World DockerError (List String)
  pub volume_create : String → Action World DockerError String

-- what EnsureContainerStarted is asked for
pub record EnsureContainerOpts : Type 0 where
  pub container_name : String
  pub image : String
  pub image_strategy : ImageStrategy

module _ (cli : Client) where
  open cli use {
    World, container_list, container_inspect, container_start, container_create, image_list,
    image_pull, image_build, network_list, network_create, volume_list, volume_create,
  }

  abbrev inspect_first : List Container → Action World DockerError (Option Container)
  inspect_first [] = pure none
  inspect_first (c ∷ cs) = do ci ← container_inspect c.id; pure (some ci)

  -- CheckContainer
  unfoldable pub check_container : String → Action World DockerError (Option Container)
  check_container name = do containers ← container_list name; inspect_first containers

  -- the image of the first tag that the name begins
  has_tag : String → List String → Bool
  has_tag name [] = false
  has_tag name (rt ∷ rts) = if starts_with rt name then true else has_tag name rts

  first_image : String → List Image → Option Image
  first_image name [] = none
  first_image name (i ∷ is) = if has_tag name i.repo_tags then some i else first_image name is

  -- FindImage
  unfoldable pub find_image : String → Action World DockerError (Option Image)
  unfolding has_tag first_image
  find_image name = do images ← image_list ""; pure (first_image name images)

  -- EnsureImage: whether the image had to be built
  unfoldable pub ensure_image : String → Action World DockerError Bool
  ensure_image name = do
    found ← find_image name
    elim found [ some i ↦ pure false | none ↦ (do image_build name; pure true) ]

  -- the `switch` over the strategy
  unfoldable pub obtain_image : EnsureContainerOpts → Action World DockerError (Unit {0})
  obtain_image opts = elim opts.image_strategy [
    | without_image ↦ (do
      found ← find_image opts.image
      elim found [ none ↦ raise image_not_found | some i ↦ pure tt ])
    | pull_image ↦ image_pull opts.image
    | build_image ↦ (do created ← ensure_image opts.image; pure tt)
  ]

  abbrev start_existing :
      EnsureContainerOpts → Container → Action World DockerError (Option Container × Bool)
  start_existing opts ci =
      if str_eq ci.status "running"
      then pure (some ci, false)
      else do container_start ci.id; ci' ← check_container opts.container_name; pure (ci', false)

  abbrev create_new : EnsureContainerOpts → Action World DockerError (Option Container × Bool)
  create_new opts = do
    obtain_image opts
    id ← container_create opts.container_name opts.image
    container_start id
    c ← container_inspect id
    pure (some c, true)

  -- EnsureContainerStarted: the container, and whether it was created
  unfoldable pub ensure_container_started :
      EnsureContainerOpts → Action World DockerError (Option Container × Bool)
  ensure_container_started opts = do
    ci ← check_container opts.container_name
    elim ci [ some c ↦ start_existing opts c | none ↦ create_new opts ]

  -- EnsureBridgeNetwork
  unfoldable pub ensure_bridge_network : String → Action World DockerError String
  ensure_bridge_network name = do
    networks ← network_list name
    elim networks [ id ∷ ids ↦ pure id | [] ↦ network_create name ]

  abbrev pub volume_of : String → List String → Action World DockerError (String × Bool)
  volume_of name [] = do vol ← volume_create name; pure (vol, true)
  volume_of name (v ∷ []) = pure (v, false)
  volume_of name (v ∷ w ∷ vs) = raise (unexpected_volumes name)

  -- EnsureVolume: the volume, and whether it was created
  unfoldable pub ensure_volume : String → Action World DockerError (String × Bool)
  ensure_volume name = do volumes ← volume_list name; volume_of name volumes
