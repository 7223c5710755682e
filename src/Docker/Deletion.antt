-- ===== src/Docker/Deletion.antt =====
-- pkg/docker/container.go: DeleteContainers. The deletions run at once; their results come over an
-- unbuffered channel, in the order in which the deletions end. A receive when every goroutine has
-- sent its result waits for ever.
use testground.Base.{
  ℕ, zero, suc, ◌<◌, ◌≡◌, refl, ◌⊎◌, inl, inr, String, Option, none, some, List, [], ◌∷◌, length,
  map, All, arith, Option-cases,
}

-- a call that returned, or one that waits for ever
pub data Progress (A : Type 0) : Type 0 where
  returned : A → Progress A
  blocked : Progress A

-- `multierror.Append(merr, e)`, which passes over a nil error
abbrev append_error : List String → Option String → List String
append_error merr none = merr
append_error merr (some e) = e ∷ merr

-- the loop over the results: a failed deletion makes it receive a second time
unfoldable pub receive : ℕ → List (Option String) → List String → Progress (List String)
receive zero errs merr = returned merr
receive (suc n) [] merr = blocked
receive (suc n) (none ∷ errs) merr = receive n errs merr
receive (suc n) (some e ∷ []) merr = blocked
receive (suc n) (some e ∷ next ∷ errs) merr = receive n errs (append_error merr next)

-- DeleteContainers: the identifiers stand in the order in which their deletions end
unfoldable pub delete_containers : (String → Option String) → List String → Progress (List String)
unfolding receive
delete_containers remove ids = receive (length ids) (map remove ids) []

receive_starved :
    (n : ℕ) (errs : List (Option String)) (merr : List String)
    → length errs < n
    → receive n errs merr ≡ blocked
unfolding receive
receive_starved zero errs merr h = elim h [ ]
receive_starved (suc n) [] merr h = refl
receive_starved (suc n) (none ∷ errs) merr h = receive_starved n errs merr (omega arith)
receive_starved (suc n) (some e ∷ []) merr h = refl
receive_starved (suc n) (some e ∷ next ∷ errs) merr h =
    receive_starved n errs (append_error merr next) (omega arith)

length-map :
    (remove : String → Option String) (ids : List String) → length (map remove ids) ≡ length ids
length-map remove [] = refl
length-map remove (id ∷ ids) = omega (arith, length-map remove ids)

failed_first :
    (remove : String → Option String) (e : String) (ids : List String) (merr : List String)
    → receive (suc (length ids)) (some e ∷ map remove ids) merr ≡ blocked
unfolding receive
failed_first remove e [] merr = refl
failed_first remove e (id ∷ ids) merr =
    receive_starved (suc (length ids)) (map remove ids) (append_error merr (remove id))
      (omega (arith, length-map remove ids))

receive_cases :
    (remove : String → Option String) (ids : List String) (merr : List String)
    → (All (λ id. remove id ≡ none) ids
        × (receive (length ids) (map remove ids) merr ≡ returned merr))
      ⊎ ((¬ All (λ id. remove id ≡ none) ids)
          × (receive (length ids) (map remove ids) merr ≡ blocked))
unfolding receive
receive_cases remove [] merr = inl (tt, refl)
receive_cases remove (id ∷ ids) merr = elim (Option-cases (remove id)) [
  | inl removed ↦ elim (receive_cases remove ids merr) [
    | inl (all, ends) ↦ inl ((removed, all), rw removed ends)
    | inr (some_failed, waits) ↦ inr (λ (r, all). some_failed all, rw removed waits)
  ]
  | inr (e, kept) ↦ inr (λ (r, all). cc (r, kept), rw kept (failed_first remove e ids merr))
]

-- DeleteContainers returns, without an error, when every deletion succeeds; where one of them
-- fails it waits for ever.
pub delete_containers_returns :
    (remove : String → Option String) (ids : List String)
    → (All (λ id. remove id ≡ none) ids × (delete_containers remove ids ≡ returned []))
      ⊎ ((¬ All (λ id. remove id ≡ none) ids) × (delete_containers remove ids ≡ blocked))
unfolding delete_containers
delete_containers_returns remove ids = receive_cases remove ids []
