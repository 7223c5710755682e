-- ===== src/Docker/Ensure.antt =====
-- What the helpers of pkg/docker that ensure a volume, a network or a container leave behind.
use testground.Base.{◌≡◌, ap, ◌∙◌, String, Bool, true, false, List, [], ◌∷◌}
use testground.Base.Errors.{Fallible, ok}
use testground.Base.Actions.{pure, >>=-ends}
use testground.Docker.{Client, DockerError, ensure_volume, volume_of}

-- Docker's lists do not change anything, and show what was created.
pub record IsLawful (cli : Client) : Type 0 where
  pub list-reads : (name : String) (w : cli.World) → (cli.volume_list name w).1 ≡ w
  pub list-created :
      (name v : String) (w w' : cli.World)
      → cli.volume_create name w ≡ (ok v, w')
      → (cli.volume_list name w').0 ≡ ok (v ∷ [])

module _ (cli : Client) (lawful : IsLawful cli) where
  open cli use {World, volume_list, volume_create}

  abbrev Ensured : Type 0
  Ensured = Fallible DockerError (String × Bool) × World

  ensure_found :
      (name v : String) (w : World)
      → (volume_list name w).0 ≡ ok (v ∷ [])
      → ◌≡◌ {A = Ensured} (ensure_volume cli name w) (ok (v, false), w)
  unfolding ensure_volume
  ensure_found name v w h = rw h (ap (λ (x : World). (ok (v, false), x)) (lawful.list-reads name w))

  found_after :
      (name v : String) (created : Bool) (volumes : List String) (w w' : World)
      → (volume_list name w).0 ≡ ok volumes
      → ◌≡◌ {A = Ensured} (volume_of cli name volumes w) (ok (v, created), w')
      → (volume_list name w').0 ≡ ok (v ∷ [])
  found_after name v created [] w w' listed h =
      let (vol, made, e) =
        >>=-ends (volume_create name) (λ (x : String). pure (x, true)) w {b = (v, created)} h in
      let same : vol ≡ v = cc e in
      let world : (volume_create name w).1 ≡ w' = cc e in
      lawful.list-created name v w w' (λ i. ((made ∙ ap ok same) i, world i))
  found_after name v created (x ∷ []) w w' listed h =
      let same : x ≡ v = cc h in let world : w ≡ w' = cc h in rw (← world) (rw (← same) listed)
  found_after name v created (x ∷ y ∷ xs) w w' listed h = cc h

  -- A volume that EnsureVolume returned is found by the next EnsureVolume of the name, which
  -- creates nothing and leaves docker as it is.
  pub ensure_volume-again :
      (name v : String) (created : Bool) (w w' : World)
      → ◌≡◌ {A = Ensured} (ensure_volume cli name w) (ok (v, created), w')
      → ◌≡◌ {A = Ensured} (ensure_volume cli name w') (ok (v, false), w')
  unfolding ensure_volume
  ensure_volume-again name v created w w' h =
      let (volumes, listed, e) = >>=-ends (volume_list name) (volume_of cli name) w h in
      ensure_found name v w'
        (found_after name v created volumes w w' listed (rw (lawful.list-reads name w) at e))
