-- ===== src/Docker/Watch.antt =====
-- pkg/docker/manager.go: Watch. A worker is the handle that `start` makes for it, and has a context
-- of its own. A worker that returns by itself only closes its `done`, which leaves the map and the
-- contexts as they are. The loop never ends by itself: what is modelled is its state after the
-- events that it has received, and, where one of them ends it, after its deferred calls.
use testground.Base.{
  ℕ, ◌+◌, ◌≡◌, ◌↔◌, refl, sym, ap, ◌∙◌, String, Bool, true, false, ◌&&◌, Option, none, some, List,
  [], ◌∷◌, str_eq, eq_iff, ◌==◌, if◌then◌else◌, arith, Option-cases, inl, inr,
}
use testground.Base.Maps.{Map, lookup, insert, remove, lookup-insert, lookup-remove}

-- an event of docker; for the end of a container, whether its worker stops before the timeout
pub data Event : Type 0 where
  starts : String → Event
  ends : String → Bool → Event  -- "stop", "destroy" or "die"
  unexpected : String → Event
  stream_error : String → Event

-- after an event the loop waits for the next one, has left with an error, or has panicked
pub data Status : Type 0 where
  waiting : Status
  failed : String → Status
  panicked : Status

pub record Watcher : Type 0 where
  pub managers : Map ℕ  -- the handle of each container's worker
  pub contexts : List (String × ℕ)  -- those that are not canceled, of a container and its worker
  pub next : ℕ

abbrev pub same_worker : String → ℕ → String × ℕ → Bool
same_worker id n (i, m) = str_eq i id && m == n

unfoldable pub is_open : String → ℕ → List (String × ℕ) → Bool
is_open id n [] = false
is_open id n (w ∷ ws) = if same_worker id n w then true else is_open id n ws

-- `wh.cancel()`
unfoldable pub cancel : String → ℕ → List (String × ℕ) → List (String × ℕ)
cancel id n [] = []
cancel id n (w ∷ ws) = let rest = cancel id n ws in if same_worker id n w then rest else w ∷ rest

abbrev start_new : String → Option ℕ → Watcher → Watcher
start_new id (some wh) s = s
start_new id none s = record {
  managers = insert id s.next s.managers;
  contexts = (id, s.next) ∷ s.contexts;
  next = s.next + 1;
}

-- `start`
unfoldable pub start : String → Watcher → Watcher
start id s = start_new id (lookup id s.managers) s

abbrev stop_found : String → Bool → Option ℕ → Watcher → Status × Watcher
stop_found id in_time none s = (waiting, s)
stop_found id in_time (some wh) s = (
  if in_time then waiting else panicked,
  record s { managers = remove id s.managers; contexts = cancel id wh s.contexts },
)

-- `stop`
unfoldable pub stop : String → Bool → Watcher → Status × Watcher
stop id in_time s = stop_found id in_time (lookup id s.managers) s

-- the `select` of the loop
unfoldable pub react : Event → Watcher → Status × Watcher
unfolding start stop
react (starts id) s = (waiting, start id s)
react (ends id in_time) s = stop id in_time s
react (unexpected status) s = (failed status, s)
react (stream_error e) s = (failed e, s)

abbrev go_on : Status → Watcher → (Watcher → Status × Watcher) → Status × Watcher
go_on waiting s rest = rest s
go_on (failed e) s rest = (failed e, s)
go_on panicked s rest = (panicked, s)

-- the loop, up to the events that were received
unfoldable pub react_all : List Event → Watcher → Status × Watcher
react_all [] s = (waiting, s)
react_all (e ∷ es) s = let (status, s') = react e s in go_on status s' (react_all es)

unfoldable pub start_all : List String → Watcher → Watcher
start_all [] s = s
start_all (id ∷ ids) s = start_all ids (start id s)

abbrev pub idle : Watcher
idle = record { managers = []; contexts = []; next = 0 }

-- the deferred calls: the cancel of the context that all the workers' contexts come from, then the
-- wait for the `done` of each worker in the map
abbrev pub leave : Status × Watcher → Status × Watcher
leave (waiting, s) = (waiting, s)
leave (failed e, s) = (failed e, record s { contexts = [] })
leave (panicked, s) = (panicked, record s { contexts = [] })

-- Watch: the containers that run already, then the events
unfoldable pub watch : List String → List Event → Status × Watcher
unfolding start_all react_all
watch containers events = leave (react_all events (start_all containers idle))

-- whether a container runs after an event, when it ran or did not run before
abbrev pub runs_after : String → Bool → Event → Bool
runs_after id b (starts i) = if str_eq i id then true else b
runs_after id b (ends i in_time) = if str_eq i id then false else b
runs_after id b (unexpected status) = b
runs_after id b (stream_error e) = b

unfoldable pub runs : String → Bool → List Event → Bool
runs id b [] = b
runs id b (e ∷ es) = runs id (runs_after id b e) es

unfoldable pub is_among : String → List String → Bool
is_among id [] = false
is_among id (i ∷ is) = if str_eq i id then true else is_among id is

abbrev pub has_worker : String → Watcher → Bool
has_worker id s = elim (lookup id s.managers) [ none ↦ false | some wh ↦ true ]

-- the contexts that are open are those of the workers of the map
abbrev pub IsExact : Watcher → Type 0
IsExact s =
    (id : String) (n : ℕ) → (is_open id n s.contexts ≡ true) ↔ (lookup id s.managers ≡ some n)

start-IsExact : (id : String) (s : Watcher) → IsExact s → IsExact (start id s)
unfolding start is_open
start-IsExact id s exact i n = elim (Option-cases (lookup id s.managers)) [
  | inl absent ↦
      rw absent (ground (arith, lookup-insert id i s.next s.managers, eq_iff id i, exact i n))
  | inr (wh, found) ↦ rw found (exact i n)
]

is_open-cancel :
    (id i : String) (wh n : ℕ) (ws : List (String × ℕ))
    → is_open i n (cancel id wh ws) ≡ (if same_worker id wh (i, n) then false else is_open i n ws)
unfolding is_open cancel
is_open-cancel id i wh n [] = ground arith
is_open-cancel id i wh n ((j, m) ∷ ws) =
    ground (arith, eq_iff j id, eq_iff j i, eq_iff i id, is_open-cancel id i wh n ws)

stop-IsExact :
    (id : String) (in_time : Bool) (s : Watcher) → IsExact s → IsExact (stop id in_time s).1
unfolding stop
stop-IsExact id in_time s exact i n = elim (Option-cases (lookup id s.managers)) [
  | inl absent ↦ rw absent (exact i n)
  | inr (wh, found) ↦ rw found (
      ground (
        arith,
        is_open-cancel id i wh n s.contexts,
        lookup-remove id i s.managers,
        eq_iff id i,
        eq_iff i id,
        exact i n,
      ))
]

react-IsExact : (e : Event) (s : Watcher) → IsExact s → IsExact (react e s).1
unfolding react
react-IsExact (starts id) s exact = start-IsExact id s exact
react-IsExact (ends id in_time) s exact = stop-IsExact id in_time s exact
react-IsExact (unexpected status) s exact = exact
react-IsExact (stream_error e) s exact = exact

go_on-IsExact :
    (status : Status) (s : Watcher) (rest : Watcher → Status × Watcher)
    → IsExact s
    → IsExact (rest s).1
    → IsExact (go_on status s rest).1
go_on-IsExact waiting s rest exact after = after
go_on-IsExact (failed e) s rest exact after = exact
go_on-IsExact panicked s rest exact after = exact

react_all-IsExact : (es : List Event) (s : Watcher) → IsExact s → IsExact (react_all es s).1
unfolding react_all
react_all-IsExact [] s exact = exact
react_all-IsExact (e ∷ es) s exact =
    let exact' = react-IsExact e s exact in
    go_on-IsExact (react e s).0 (react e s).1 (react_all es) exact'
      (react_all-IsExact es (react e s).1 exact')

start_all-IsExact : (ids : List String) (s : Watcher) → IsExact s → IsExact (start_all ids s)
unfolding start_all
start_all-IsExact [] s exact = exact
start_all-IsExact (id ∷ ids) s exact = start_all-IsExact ids (start id s) (start-IsExact id s exact)

idle-IsExact : IsExact idle
unfolding is_open lookup
idle-IsExact id n = (λ h. cc h, λ h. cc h)

has_worker-start :
    (i id : String) (s : Watcher)
    → has_worker i (start id s) ≡ (if str_eq id i then true else has_worker i s)
unfolding start
has_worker-start i id s = elim (Option-cases (lookup id s.managers)) [
  | inl absent ↦ rw absent (ground (arith, lookup-insert id i s.next s.managers))
  | inr (wh, found) ↦ rw found (ground (arith, eq_iff id i))
]

has_worker-stop :
    (i id : String) (in_time : Bool) (s : Watcher)
    → has_worker i (stop id in_time s).1 ≡ (if str_eq id i then false else has_worker i s)
unfolding stop
has_worker-stop i id in_time s = elim (Option-cases (lookup id s.managers)) [
  | inl absent ↦ rw absent (ground (arith, eq_iff id i))
  | inr (wh, found) ↦ rw found (ground (arith, lookup-remove id i s.managers))
]

has_worker-react :
    (i : String) (e : Event) (s : Watcher)
    → has_worker i (react e s).1 ≡ runs_after i (has_worker i s) e
unfolding react
has_worker-react i (starts id) s = has_worker-start i id s
has_worker-react i (ends id in_time) s = has_worker-stop i id in_time s
has_worker-react i (unexpected status) s = refl
has_worker-react i (stream_error e) s = refl

has_worker-start_all :
    (i : String) (ids : List String) (s : Watcher)
    → has_worker i (start_all ids s) ≡ (if is_among i ids then true else has_worker i s)
unfolding start_all is_among
has_worker-start_all i [] s = refl
has_worker-start_all i (id ∷ ids) s =
    ground (arith, has_worker-start_all i ids (start id s), has_worker-start i id s)

go_on_waiting :
    (status : Status) (s : Watcher) (rest : Watcher → Status × Watcher)
    → (go_on status s rest).0 ≡ waiting
    → ◌≡◌ {A = Status × Watcher} (go_on status s rest) (rest s)
go_on_waiting waiting s rest h = refl
go_on_waiting (failed e) s rest h = cc h
go_on_waiting panicked s rest h = cc h

has_worker-react_all :
    (i : String) (es : List Event) (s : Watcher)
    → (react_all es s).0 ≡ waiting
    → has_worker i (react_all es s).1 ≡ runs i (has_worker i s) es
unfolding react_all runs
has_worker-react_all i [] s h = refl
has_worker-react_all i (e ∷ es) s h =
    let same = go_on_waiting (react e s).0 (react e s).1 (react_all es) h in
    let h' : (react_all es (react e s).1).0 ≡ waiting =
      sym (ap (λ (x : Status × Watcher). x.0) same) ∙ h in
    ap (λ (x : Status × Watcher). has_worker i x.1) same
    ∙ (has_worker-react_all i es (react e s).1 h'
        ∙ ap (λ (b : Bool). runs i b es) (has_worker-react i e s))

-- while the loop waits, one open context for each worker of the map; after it, none
abbrev pub IsKept : Status × Watcher → Type 0
IsKept (waiting, s) = IsExact s
IsKept (failed e, s) = s.contexts ≡ []
IsKept (panicked, s) = s.contexts ≡ []

leave-IsKept : (r : Status × Watcher) → IsExact r.1 → IsKept (leave r)
leave-IsKept (waiting, s) exact = exact
leave-IsKept (failed e, s) exact = refl
leave-IsKept (panicked, s) exact = refl

-- While the loop waits for an event, the contexts that are not canceled are exactly those of the
-- workers in the map, so that no container has two; where an event ended the loop by an error or a
-- panic, all contexts are canceled.
pub watch-IsKept : (containers : List String) (es : List Event) → IsKept (watch containers es)
unfolding watch
watch-IsKept containers es = leave-IsKept (react_all es (start_all containers idle)) (
    react_all-IsExact es (start_all containers idle)
      (start_all-IsExact containers idle idle-IsExact))

leave-waiting :
    (r : Status × Watcher) → (leave r).0 ≡ waiting → (r.0 ≡ waiting) × ((leave r).1 ≡ r.1)
leave-waiting (waiting, s) h = (refl, refl)
leave-waiting (failed e, s) h = cc h
leave-waiting (panicked, s) h = cc h

-- While the loop waits for the next event, a container has a worker exactly when it ran at the
-- start or was started later, and has not ended since.
pub watch-runs :
    (containers : List String) (es : List Event) (id : String)
    → (watch containers es).0 ≡ waiting
    → has_worker id (watch containers es).1 ≡ runs id (is_among id containers) es
unfolding watch lookup
watch-runs containers es id h =
    let (going, same) = leave-waiting (react_all es (start_all containers idle)) h in
    ap (has_worker id) same
    ∙ has_worker-react_all id es (start_all containers idle) going
    ∙ ap (λ (b : Bool). runs id b es) (has_worker-start_all id containers idle ∙ none_yet id)
  where
    none_yet :
        (i : String)
        → (if is_among i containers then true else has_worker i idle) ≡ is_among i containers
    none_yet i = ground arith
