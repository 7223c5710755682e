-- ===== src/Tests/Dockers.antt =====
-- Docker's helpers at concrete values.
use testground.Base.{
  ◌≡◌, ◌⊎◌, refl, String, true, Option, none, some, List, [], ◌∷◌, str_eq, if◌then◌else◌, All,
}
use testground.Base.Maps.{lookup, insert, remove}
use testground.Docker.Deletion.{returned, blocked, delete_containers, delete_containers_returns}
use testground.Docker.Watch.{
  Event, starts, ends, waiting, watch, runs, is_among, has_worker, IsKept, watch-IsKept, watch-runs,
  react, cancel,
}

-- the second container cannot be removed
abbrev one_stays : String → Option String
one_stays id = if str_eq id "b" then some "in use" else none

delete_containers_returns_example :
    (All (λ id. one_stays id ≡ none) ("a" ∷ "b" ∷ "c" ∷ [])
      × (delete_containers one_stays ("a" ∷ "b" ∷ "c" ∷ []) ≡ returned []))
    ⊎ ((¬ All (λ id. one_stays id ≡ none) ("a" ∷ "b" ∷ "c" ∷ []))
        × (delete_containers one_stays ("a" ∷ "b" ∷ "c" ∷ []) ≡ blocked))
delete_containers_returns_example = delete_containers_returns one_stays ("a" ∷ "b" ∷ "c" ∷ [])

delete_one_stays : delete_containers one_stays ("a" ∷ "b" ∷ "c" ∷ []) ≡ blocked
unfolding delete_containers
delete_one_stays = refl

-- a container that runs already ends, and another starts twice
abbrev some_events : List Event
some_events = starts "b" ∷ ends "a" true ∷ starts "b" ∷ []

some_events-waiting : (watch ("a" ∷ []) some_events).0 ≡ waiting
unfolding watch react lookup insert remove cancel
some_events-waiting = refl

watch-IsKept_example : IsKept (watch ("a" ∷ []) some_events)
watch-IsKept_example = watch-IsKept ("a" ∷ []) some_events

watch-runs_example :
    has_worker "b" (watch ("a" ∷ []) some_events).1 ≡ runs "b" (is_among "b" ("a" ∷ [])) some_events
watch-runs_example = watch-runs ("a" ∷ []) some_events "b" some_events-waiting
