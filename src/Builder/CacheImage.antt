-- ===== src/Builder/CacheImage.antt =====
-- pkg/build/docker_go.go: the image that caches what a build of a plan has compiled, and the end
-- of all images. Docker's calls are a record over an unknown state.
use testground.Base.{
  ◌≡◌, refl, ◌∙◌, String, Bool, true, false, Option, none, some, List, [], ◌∷◌, ◌++◌, All,
  if◌then◌else◌,
}
use testground.Base.Errors.{Fallible, ok, err, panic}
use testground.Base.Actions.{Action, pure, ◌>>=◌, ◌>>◌}
use testground.Builder.Text.{contains_text, trim_space, trim_prefix}

-- the loop of parseBuildCacheOutputImage over the lines of the output
unfoldable pub find_image_line : Bool → String → List String → String
unfolding contains_text trim_space trim_prefix
find_image_line found last [] = ""
find_image_line false last (line ∷ lines) =
    let after = find_image_line true last lines in
    let before = find_image_line false last lines in
    if contains_text "AS builder" line then after else before
find_image_line true last (line ∷ lines) =
    let further = find_image_line true line lines in
    if contains_text "AS runtime" line then trim_prefix "---> " (trim_space last) else further

-- parseBuildCacheOutputImage
unfoldable pub parse_build_cache_output_image : List String → String
unfolding find_image_line
parse_build_cache_output_image lines = find_image_line false "" lines

-- before the marker nothing is found
find_image_line-before :
    (before rest : List String) (marker : String)
    → All (λ line. contains_text "AS builder" line ≡ false) before
    → contains_text "AS builder" marker ≡ true
    → find_image_line false "" (before ++ marker ∷ rest) ≡ find_image_line true "" rest
unfolding find_image_line
find_image_line-before [] rest marker h m = rw m refl
find_image_line-before (line ∷ before) rest marker (h, hs) m =
    rw h (find_image_line-before before rest marker hs m)

find_image_line-after :
    (mid rest : List String) (previous last end : String)
    → All (λ line. contains_text "AS runtime" line ≡ false) mid
    → contains_text "AS runtime" last ≡ false
    → contains_text "AS runtime" end ≡ true
    → find_image_line true previous (mid ++ last ∷ end ∷ rest)
      ≡ trim_prefix "---> " (trim_space last)
unfolding find_image_line
find_image_line-after [] rest previous last end h k m = rw k (rw m refl)
find_image_line-after (line ∷ mid) rest previous last end (h, hs) k m =
    rw h (find_image_line-after mid rest line last end hs k m)

-- In an output whose first line with the builder's marker is followed by one with the runtime's,
-- the image is read from the line before the latter.
pub parse_build_cache_output_image_correct :
    (before mid rest : List String) (marker last end : String)
    → All (λ line. contains_text "AS builder" line ≡ false) before
    → contains_text "AS builder" marker ≡ true
    → All (λ line. contains_text "AS runtime" line ≡ false) mid
    → contains_text "AS runtime" last ≡ false
    → contains_text "AS runtime" end ≡ true
    → parse_build_cache_output_image (before ++ marker ∷ (mid ++ last ∷ end ∷ rest))
      ≡ trim_prefix "---> " (trim_space last)
unfolding parse_build_cache_output_image
parse_build_cache_output_image_correct before mid rest marker last end hb hm hr hl he =
    find_image_line-before before (mid ++ last ∷ end ∷ rest) marker hb hm
    ∙ find_image_line-after mid rest "" last end hr hl he

pub record ImageHost (W : Type 0) : Type 0 where
  pub find_image : String → Action W String (Option String)
  pub image_remove : String → Action W String (Unit {0})
  pub image_tag : String → String → Action W String (Unit {0})
  pub image_list : Action W String (List String)  -- of the builder's own images

module _ {W : Type 0} (host : ImageHost W) where
  -- hasBuildCacheImage
  unfoldable pub has_build_cache_image : String → Action W String Bool
  has_build_cache_image image = do
    info ← host.find_image image
    pure (elim info [ none ↦ false | some id ↦ true ])

  -- an error of docker about an image that is not there
  abbrev pass_missing : Fallible String (Unit {0}) × W → Fallible String (Unit {0}) × W
  pass_missing (ok u, w) = (ok u, w)
  pass_missing (err e, w) = (if contains_text "No such image" e then ok tt else err e, w)
  pass_missing (panic, w) = (panic, w)

  -- removeBuildCacheImage
  unfoldable pub remove_build_cache_image : String → Action W String (Unit {0})
  unfolding contains_text
  remove_build_cache_image image w = pass_missing (host.image_remove image w)

  -- updateBuildCacheImage
  unfoldable pub update_build_cache_image : String → String → Action W String (Unit {0})
  unfolding remove_build_cache_image
  update_build_cache_image image id = remove_build_cache_image image >> host.image_tag id image

  -- Purge, of the image with the name of the plan's cache
  unfoldable pub purge : String → Action W String (Unit {0})
  unfolding remove_build_cache_image
  purge image = remove_build_cache_image image

  abbrev note : Fallible String (Unit {0}) → List String → List String
  note (ok u) errs = errs
  note (err e) errs = e ∷ errs
  note panic errs = errs

  -- the loop of TerminateAll: each image is removed, and the errors are collected
  unfoldable pub remove_images : List String → W → List String × W
  remove_images [] w = ([], w)
  remove_images (id ∷ ids) w =
      let (r, w') = host.image_remove id w in
      let (errs, w'') = remove_images ids w' in (note r errs, w'')

  -- TerminateAll: the errors, of which none is nil
  unfoldable pub terminate_all : Action W String (List String)
  unfolding remove_images
  terminate_all = do
    ids ← host.image_list
    λ w. let (errs, w') = remove_images ids w in (ok errs, w')
