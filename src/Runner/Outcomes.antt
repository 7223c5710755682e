-- ===== src/Runner/Outcomes.antt =====
-- pkg/runner/local_docker.go and cluster_k8s.go: collectOutcomes, the same in both runners. The
-- goroutine's loop is over the events that it receives before its context is done.
use testground.Base.{
  ℕ, ◌+◌, ◌≡◌, ◌≢◌, ◌↔◌, refl, sym, ap, ◌∙◌, ◌⊎◌, inl, inr, String, Bool, true, false, Option, none,
  some, List, [], ◌∷◌, str_eq, eq_iff, ◌==◌, ==_iff, if◌then◌else◌, arith, All, Bool-cases,
}
use testground.Base.Maps.{Map, lookup, insert}
use testground.Base.Errors
use testground.Base.Errors.{Fallible, ok, err, panic}
use testground.Task.Payload.{Outcome}

-- GroupOutcome: the counters are those of the events and of the instances, so not negative
pub record GroupOutcome : Type 0 where
  pub ok_count : ℕ  -- Ok
  pub total : ℕ

-- an event of the sync service: the success of an instance of a group, or another; a channel that
-- was closed gives nil
pub data Event : Type 0 where
  nil_event : Event
  success : String → Event
  another : Event

-- `o := result.Outcomes[id]; o.Ok = o.Ok + 1`: an unknown group is a nil pointer
abbrev pub count_one :
    String → Map GroupOutcome → Option GroupOutcome → Fallible String (Map GroupOutcome)
count_one id outcomes none = panic
count_one id outcomes (some o) = ok (insert id (record o { ok_count = o.ok_count + 1 }) outcomes)

-- the loop over the events
unfoldable pub count_events : List Event → Map GroupOutcome → Fallible String (Map GroupOutcome)
count_events [] outcomes = ok outcomes
count_events (Event.nil_event ∷ events) outcomes = panic
count_events (Event.another ∷ events) outcomes = count_events events outcomes
count_events (Event.success id ∷ events) outcomes =
    Errors.◌>>=◌ (count_one id outcomes (lookup id outcomes)) (count_events events)

-- the loop over the groups
unfoldable pub all_ok : Map GroupOutcome → Bool
all_ok [] = true
all_ok ((id, o) ∷ outcomes) = if o.total == o.ok_count then all_ok outcomes else false

abbrev pub is_nil : Map GroupOutcome → Bool
is_nil [] = true
is_nil (e ∷ es) = false

-- the outcome of the run
abbrev pub outcome_of : Map GroupOutcome → Outcome
outcome_of outcomes =
    if is_nil outcomes
    then Outcome.failure
    else if all_ok outcomes
    then Outcome.success
    else Outcome.failure

-- collectOutcomes
unfoldable pub collect_outcomes : List Event → Map GroupOutcome → Fallible String Outcome
unfolding count_events all_ok
collect_outcomes events outcomes =
    Errors.◌>>=◌ (count_events events outcomes) (λ counted. ok (outcome_of counted))

-- how often a group succeeds among the events
abbrev pub successes : String → List Event → ℕ
successes id [] = 0
successes id (Event.nil_event ∷ events) = successes id events
successes id (Event.another ∷ events) = successes id events
successes id (Event.success j ∷ events) = (if str_eq j id then 1 else 0) + successes id events

-- the counts that the events should leave
abbrev pub add_counts : (String → ℕ) → Map GroupOutcome → Map GroupOutcome
add_counts f [] = []
add_counts f ((id, o) ∷ outcomes) =
    (id, record o { ok_count = o.ok_count + f id }) ∷ add_counts f outcomes

-- a map's keys are distinct
abbrev pub HasDistinctKeys : Map GroupOutcome → Type 0
HasDistinctKeys [] = Unit
HasDistinctKeys ((id, o) ∷ outcomes) = (lookup id outcomes ≡ none) × HasDistinctKeys outcomes

-- the channel stays open, and every success is one of a known group
abbrev pub AreKnown : List Event → Map GroupOutcome → Type 0
AreKnown [] outcomes = Unit
AreKnown (Event.nil_event ∷ events) outcomes = ⊥
AreKnown (Event.another ∷ events) outcomes = AreKnown events outcomes
AreKnown (Event.success id ∷ events) outcomes =
    ((o : GroupOutcome) × (lookup id outcomes ≡ some o)) × AreKnown events outcomes

abbrev one_of : String → String → ℕ
one_of id j = if str_eq id j then 1 else 0

entry_eq :
    (id : String) (o : GroupOutcome) (m n : ℕ) (rest rest' : Map GroupOutcome)
    → m ≡ n
    → rest ≡ rest'
    → ◌≡◌ {A = Map GroupOutcome}
        ((id, record o { ok_count = m }) ∷ rest)
        ((id, record o { ok_count = n }) ∷ rest')
entry_eq id o m n rest rest' h k = cc (h, k)

head_eq :
    (id j : String) (o w : GroupOutcome) (m n : ℕ) (rest rest' : Map GroupOutcome)
    → j ≡ id
    → o ≡ w
    → m ≡ n
    → rest ≡ rest'
    → ◌≡◌ {A = Map GroupOutcome}
        ((id, record o { ok_count = m }) ∷ rest)
        ((j, record w { ok_count = n }) ∷ rest')
head_eq id j o w m n rest rest' e same h k = cc (e, same, h, k)

lookup-head :
    (id j : String) (w : GroupOutcome) (m : Map GroupOutcome)
    → ((j ≡ id) × (one_of id j ≡ 1) × (lookup id ((j, w) ∷ m) ≡ some w))
      ⊎ ((str_eq j id ≡ false) × (one_of id j ≡ 0) × (lookup id ((j, w) ∷ m) ≡ lookup id m))
unfolding lookup
lookup-head id j w m = ground (arith, eq_iff j id, eq_iff id j)

add_counts-absent :
    (id : String) (m : Map GroupOutcome) → lookup id m ≡ none → add_counts (one_of id) m ≡ m
unfolding lookup
add_counts-absent id [] h = refl
add_counts-absent id ((j, o) ∷ m) h = elim (lookup-head id j o m) [
  | inl (e, one, found) ↦ cc (found, h)
  | inr (apart, zero_one, rest) ↦
      entry_eq j o _ _ _ _ (omega (arith, zero_one)) (add_counts-absent id m (sym rest ∙ h))
]

insert-add_counts :
    (id : String) (o : GroupOutcome) (m : Map GroupOutcome)
    → lookup id m ≡ some o
    → HasDistinctKeys m
    → insert id (record o { ok_count = o.ok_count + 1 }) m ≡ add_counts (one_of id) m
unfolding lookup insert
insert-add_counts id o [] h d = cc h
insert-add_counts id o ((j, w) ∷ m) h (fresh, d) = elim (lookup-head id j w m) [
  | inl (e, one, found) ↦
      let same : o ≡ w = cc (found, h) in
      let absent : lookup id m ≡ none = rw (← e) fresh in
      let counts : o.ok_count ≡ w.ok_count = ap (λ (x : GroupOutcome). x.ok_count) same in
      rw ((eq_iff j id).1 e) (
        head_eq id j o w _ _ m _ e same (omega (arith, counts, one))
          (sym (add_counts-absent id m absent)))
  | inr (apart, zero_one, rest) ↦
      rw apart
        (entry_eq j w _ _ _ _ (omega (arith, zero_one)) (insert-add_counts id o m (sym rest ∙ h) d))
]

add_counts-then :
    (f g : String → ℕ) (m : Map GroupOutcome)
    → add_counts f (add_counts g m) ≡ add_counts (λ id. g id + f id) m
add_counts-then f g [] = refl
add_counts-then f g ((id, o) ∷ m) = entry_eq id o _ _ _ _ (omega arith) (add_counts-then f g m)

lookup-add_counts :
    (id : String) (f : String → ℕ) (m : Map GroupOutcome)
    → lookup id m ≡ none
    → lookup id (add_counts f m) ≡ none
unfolding lookup
lookup-add_counts id f [] h = refl
lookup-add_counts id f ((j, o) ∷ m) h = ground (arith, lookup-add_counts id f m)

add_counts-HasDistinctKeys :
    (f : String → ℕ) (m : Map GroupOutcome) → HasDistinctKeys m → HasDistinctKeys (add_counts f m)
add_counts-HasDistinctKeys f [] d = tt
add_counts-HasDistinctKeys f ((id, o) ∷ m) (fresh, d) =
    (lookup-add_counts id f m fresh, add_counts-HasDistinctKeys f m d)

known_after :
    (id : String) (f : String → ℕ) (m : Map GroupOutcome) (o : GroupOutcome)
    → lookup id m ≡ some o
    → (o' : GroupOutcome) × (lookup id (add_counts f m) ≡ some o')
unfolding lookup
known_after id f [] o h = cc h
known_after id f ((j, w) ∷ m) o h = elim (Bool-cases (str_eq j id)) [
  | inl same ↦ (record w { ok_count = w.ok_count + f j }, rw same refl)
  | inr apart ↦ let (o', found) = known_after id f m o (rw apart at h) in (o', rw apart found)
]

AreKnown-after :
    (f : String → ℕ) (events : List Event) (m : Map GroupOutcome)
    → AreKnown events m
    → AreKnown events (add_counts f m)
AreKnown-after f [] m h = tt
AreKnown-after f (Event.nil_event ∷ events) m h = elim h [ ]
AreKnown-after f (Event.another ∷ events) m h = AreKnown-after f events m h
AreKnown-after f (Event.success id ∷ events) m ((o, found), rest) =
    (known_after id f m o found, AreKnown-after f events m rest)

-- The loop over the events adds to each group the number of its successes.
count_events_lem :
    (events : List Event) (m : Map GroupOutcome)
    → HasDistinctKeys m
    → AreKnown events m
    → count_events events m ≡ ok (add_counts (λ id. successes id events) m)
unfolding count_events
count_events_lem [] m d h = ap ok (sym (add_counts-nothing m))
  where
    add_counts-nothing : (m : Map GroupOutcome) → add_counts (λ id. 0) m ≡ m
    add_counts-nothing [] = refl
    add_counts-nothing ((id, o) ∷ rest) =
        entry_eq id o _ _ _ _ (omega arith) (add_counts-nothing rest)
count_events_lem (Event.nil_event ∷ events) m d h = elim h [ ]
count_events_lem (Event.another ∷ events) m d h = count_events_lem events m d h
count_events_lem (Event.success id ∷ events) m d ((o, found), h) = rw found (
    rw (insert-add_counts id o m found d) (
      count_events_lem events (add_counts (one_of id) m)
        (add_counts-HasDistinctKeys (one_of id) m d) (AreKnown-after (one_of id) events m h)
      ∙ ap ok (add_counts-then (λ j. successes j events) (one_of id) m)))

all_ok_iff :
    (f : String → ℕ) (m : Map GroupOutcome)
    → (all_ok (add_counts f m) ≡ true)
      ↔ All (λ (e : String × GroupOutcome). e.1.total ≡ e.1.ok_count + f e.0) m
unfolding all_ok
all_ok_iff f [] = ((λ h. tt), λ h. refl)
all_ok_iff f ((id, o) ∷ m) = ground (arith, all_ok_iff f m, ==_iff o.total (o.ok_count + f id))

-- the successes of each group make its count up to its total
abbrev pub AllDone : List Event → Map GroupOutcome → Type 0
AllDone events m =
    All (λ (e : String × GroupOutcome). e.1.total ≡ e.1.ok_count + successes e.0 events) m

counted_outcome :
    (events : List Event) (m : Map GroupOutcome)
    → HasDistinctKeys m
    → AreKnown events m
    → collect_outcomes events m ≡ ok (outcome_of (add_counts (λ id. successes id events) m))
unfolding collect_outcomes
counted_outcome events m d h = rw (count_events_lem events m d h) refl

outcome_cases :
    (f : String → ℕ) (id : String) (o : GroupOutcome) (m : Map GroupOutcome)
    → ((outcome_of (add_counts f ((id, o) ∷ m)) ≡ Outcome.success)
        × (all_ok (add_counts f ((id, o) ∷ m)) ≡ true))
      ⊎ ((outcome_of (add_counts f ((id, o) ∷ m)) ≡ Outcome.failure)
          × (all_ok (add_counts f ((id, o) ∷ m)) ≡ false))
outcome_cases f id o m = elim (Bool-cases (all_ok (add_counts f ((id, o) ∷ m)))) [
  | inl all ↦ inl (rw all refl, all)
  | inr some_not ↦ inr (rw some_not refl, some_not)
]

-- collectOutcomes, where no event is nil and each success is one of a group of the run, returns the outcome "success"
-- exactly if there is a group and the successes of each group make its count up to its total; and
-- the outcome "failure" otherwise.
pub collect_outcomes_correct :
    (events : List Event) (m : Map GroupOutcome)
    → HasDistinctKeys m
    → AreKnown events m
    → ((collect_outcomes events m ≡ ok Outcome.success) × (m ≢ []) × AllDone events m)
      ⊎ ((collect_outcomes events m ≡ ok Outcome.failure) × ¬ ((m ≢ []) × AllDone events m))
collect_outcomes_correct events [] d h =
    inr (counted_outcome events [] d h, λ (some_group, all). some_group refl)
collect_outcomes_correct events ((id, o) ∷ m) d h =
    let f = λ (j : String). successes j events in
    let result = counted_outcome events ((id, o) ∷ m) d h in
    elim (outcome_cases f id o m) [
      | inl (good, all) ↦ inl (result ∙ ap ok good, (λ e. cc e), (all_ok_iff f ((id, o) ∷ m)).0 all)
      | inr (bad, not_all) ↦ inr (
        result ∙ ap ok bad,
        λ (some_group, all). cc (not_all, (all_ok_iff f ((id, o) ∷ m)).1 all),
      )
    ]
