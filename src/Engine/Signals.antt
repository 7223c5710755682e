-- ===== src/Engine/Signals.antt =====
-- pkg/engine/engine.go and supervisor.go: the signals, which are one channel for each task that is
-- in work. Kill closes the channel; a goroutine of the task's worker waits for that.
use testground.Base.{
  ℕ, ◌≡◌, ◌≢◌, refl, sym, ap, ◌∙◌, ◌⊎◌, inl, inr, String, Bool, true, false, Option, none, some,
  List, [], ◌∷◌, eq_iff, ◌==◌, if◌then◌else◌, arith, Bool-cases, Option-cases,
}
use testground.Base.Maps.{Map, lookup, insert, remove, lookup-insert, lookup-remove}
use testground.Base.Errors.{Fallible, ok, panic}

-- `signals`, and the channels that were closed; a channel is known by a number
pub record Signals : Type 0 where
  pub channels : Map ℕ
  pub closed : List ℕ

abbrev pub is_in : ℕ → List ℕ → Bool
is_in c [] = false
is_in c (x ∷ xs) = if x == c then true else is_in c xs

-- addSignal
unfoldable pub add_signal : String → ℕ → Signals → Signals
add_signal id ch s = record s { channels = insert id ch s.channels }

-- deleteSignal
unfoldable pub delete_signal : String → Signals → Signals
delete_signal id s = record s { channels = remove id s.channels }

-- `close(ch)`, which panics on a channel that is closed
abbrev pub close : ℕ → Signals → Fallible String (Unit {0}) × Signals
close ch s = if is_in ch s.closed then (panic, s) else (ok tt, record s { closed = ch ∷ s.closed })

abbrev pub close_found : Option ℕ → Signals → Fallible String (Unit {0}) × Signals
close_found none s = (ok tt, s)
close_found (some ch) s = close ch s

-- Kill
unfoldable pub kill : String → Signals → Fallible String (Unit {0}) × Signals
kill id s = close_found (lookup id s.channels) s

-- a task whose Kill would close a channel that is closed
abbrev pub IsDoomed : String → Signals → Type 0
IsDoomed id s = (ch : ℕ) × (lookup id s.channels ≡ some ch) × (is_in ch s.closed ≡ true)

-- no channel belongs to two tasks
abbrev pub HasOwnChannels : Signals → Type 0
HasOwnChannels s =
    (i j : String) (ch : ℕ) → lookup i s.channels ≡ some ch → lookup j s.channels ≡ some ch → i ≡ j

-- a channel that was just made
abbrev pub IsNew : ℕ → Signals → Type 0
IsNew ch s = (is_in ch s.closed ≡ false) × ((j : String) → lookup j s.channels ≢ some ch)

-- Steps of the daemon in which a Kill is delivered before anything else happens: a worker makes a
-- channel for its task; a Kill, after which the task's goroutine deletes the signal; the worker
-- deletes it at the end.
pub data Step : Signals → Signals → Type 0 where
  starts : (id : String) (ch : ℕ) (s : Signals) → IsNew ch s → Step s (add_signal id ch s)
  kills : (id : String) (s s' : Signals) → kill id s ≡ (ok tt, s') → Step s (delete_signal id s')
  finishes : (id : String) (s : Signals) → Step s (delete_signal id s)

-- the states that the daemon reaches by such steps
pub data Reached : Signals → Type 0 where
  begin : Reached (record { channels = []; closed = [] })
  next : (s s' : Signals) → Reached s → Step s s' → Reached s'

-- Kill panics exactly for a task whose channel is closed.
pub kill-panics :
    (id : String) (s : Signals)
    → ((kill id s ≡ (panic, s)) × IsDoomed id s) ⊎ (((kill id s).0 ≡ ok tt) × ¬ IsDoomed id s)
unfolding kill
kill-panics id s = elim (Option-cases (lookup id s.channels)) [
  | inl none_there ↦ inr (rw none_there refl, λ (ch, at, shut). cc (none_there, at))
  | inr (ch, at) ↦ elim (Bool-cases (is_in ch s.closed)) [
    | inl shut ↦ inl (rw at (rw shut refl), (ch, at, shut))
    | inr usable ↦
        inr (rw at (rw usable refl), λ (c, at', shut). other_channel c at' shut at usable)
  ]
]
  where
    other_channel :
        (c : ℕ) {ch : ℕ}
        → lookup id s.channels ≡ some c
        → is_in c s.closed ≡ true
        → lookup id s.channels ≡ some ch
        → is_in ch s.closed ≡ false
        → ⊥
    other_channel c {ch} at' shut at usable =
        let same : c ≡ ch = cc (at', at) in cc (shut, usable, ap (λ (x : ℕ). is_in x s.closed) same)

kill_usable :
    (id : String) (ch : ℕ) (s : Signals)
    → lookup id s.channels ≡ some ch
    → is_in ch s.closed ≡ false
    → kill id s ≡ (ok tt, record s { closed = ch ∷ s.closed })
unfolding kill
kill_usable id ch s at usable = rw at (rw usable refl)

kill_closed :
    (id : String) (ch : ℕ) (s : Signals)
    → lookup id s.channels ≡ some ch
    → is_in ch s.closed ≡ true
    → kill id s ≡ (panic, s)
unfolding kill
kill_closed id ch s at shut = rw at (rw shut refl)

in_head : (ch : ℕ) (xs : List ℕ) → is_in ch (ch ∷ xs) ≡ true
in_head ch xs = ground arith

-- A second Kill of a task in work, before its signal is deleted, closes a channel that is closed,
-- and panics.
pub kill-twice :
    (id : String) (ch : ℕ) (s : Signals)
    → lookup id s.channels ≡ some ch
    → is_in ch s.closed ≡ false
    → kill id (kill id s).1 ≡ (panic, (kill id s).1)
kill-twice id ch s at usable =
    rw (kill_usable id ch s at usable)
      (kill_closed id ch (record s { closed = ch ∷ s.closed }) at (in_head ch s.closed))

found_inserted :
    (id i : String) (ch c : ℕ) (m : Map ℕ)
    → lookup i (insert id ch m) ≡ some c
    → ((id ≡ i) × (ch ≡ c)) ⊎ (lookup i m ≡ some c)
found_inserted id i ch c m h = ground (arith, lookup-insert id i ch m, eq_iff id i)

found_removed :
    (id i : String) (c : ℕ) (m : Map ℕ)
    → lookup i (remove id m) ≡ some c
    → (id ≢ i) × (lookup i m ≡ some c)
found_removed id i c m h = ground (arith, lookup-remove id i m, eq_iff id i)

-- every task has its own channel, and it is not closed
abbrev IsCalm : Signals → Type 0
IsCalm s =
    HasOwnChannels s
    × ((id : String) (ch : ℕ) → lookup id s.channels ≡ some ch → is_in ch s.closed ≡ false)

add-IsCalm :
    (id : String) (ch : ℕ) (s : Signals) → IsNew ch s → IsCalm s → IsCalm (add_signal id ch s)
unfolding add_signal
add-IsCalm id ch s (usable, new) (own, all_usable) = (own', usable')
  where
    own' : HasOwnChannels (add_signal id ch s)
    own' i j c at at' = elim (found_inserted id i ch c s.channels at) [
      | inl (e, same) ↦ elim (found_inserted id j ch c s.channels at') [
        | inl (e', same') ↦ sym e ∙ e'
        | inr old' ↦ absurd (new j (old' ∙ ap some (sym same)))
      ]
      | inr old ↦ elim (found_inserted id j ch c s.channels at') [
        | inl (e', same') ↦ absurd (new i (old ∙ ap some (sym same')))
        | inr old' ↦ own i j c old old'
      ]
    ]

    usable' :
        (i : String) (c : ℕ)
        → lookup i (insert id ch s.channels) ≡ some c
        → is_in c s.closed ≡ false
    usable' i c at = elim (found_inserted id i ch c s.channels at) [
      | inl (e, same) ↦ rw (← same) usable
      | inr old ↦ all_usable i c old
    ]

delete-IsCalm : (id : String) (s : Signals) → IsCalm s → IsCalm (delete_signal id s)
unfolding delete_signal
delete-IsCalm id s (own, usable) = (
  λ i j c at at'.
      own i j c (found_removed id i c s.channels at).1 (found_removed id j c s.channels at').1,
  λ i c at. usable i c (found_removed id i c s.channels at).1,
)

kill_absent : (id : String) (s : Signals) → lookup id s.channels ≡ none → kill id s ≡ (ok tt, s)
unfolding kill
kill_absent id s h = rw h refl

not_in_closed : (c ch : ℕ) (xs : List ℕ) → ch ≢ c → is_in c xs ≡ false → is_in c (ch ∷ xs) ≡ false
not_in_closed c ch xs h k = ground arith

-- the signal of a task deleted after its channel was closed
closed-IsCalm :
    (id : String) (ch : ℕ) (s : Signals)
    → lookup id s.channels ≡ some ch
    → IsCalm s
    → IsCalm (delete_signal id (record s { closed = ch ∷ s.closed }))
unfolding delete_signal
closed-IsCalm id ch s at (own, usable) = (
  λ i j c at' at''.
      own i j c (found_removed id i c s.channels at').1 (found_removed id j c s.channels at'').1,
  λ i c at'.
      let (other, old) = found_removed id i c s.channels at' in
      not_in_closed c ch s.closed (λ e. other (own id i c (at ∙ ap some e) old)) (usable i c old),
)

kill-IsCalm :
    (id : String) (s s' : Signals)
    → kill id s ≡ (ok tt, s')
    → IsCalm s
    → IsCalm (delete_signal id s')
kill-IsCalm id s s' killed (own, usable) = elim (Option-cases (lookup id s.channels)) [
  | inl none_there ↦
      rw
        (← ap (λ (x : Fallible String (Unit {0}) × Signals). x.1)
          (sym (kill_absent id s none_there) ∙ killed))
        (delete-IsCalm id s (own, usable))
  | inr (ch, at) ↦
      rw
        (← ap (λ (x : Fallible String (Unit {0}) × Signals). x.1)
          (sym (kill_usable id ch s at (usable id ch at)) ∙ killed))
        (closed-IsCalm id ch s at (own, usable))
]

Step-IsCalm : (s s' : Signals) → Step s s' → IsCalm s → IsCalm s'
Step-IsCalm s s' (starts id ch _ new) calm = add-IsCalm id ch s new calm
Step-IsCalm s s' (kills id _ s₁ killed) calm = kill-IsCalm id s s₁ killed calm
Step-IsCalm s s' (finishes id _) calm = delete-IsCalm id s calm

Reached-IsCalm : (s : Signals) → Reached s → IsCalm s
unfolding lookup
Reached-IsCalm s begin = ((λ i j c at at'. cc at), λ i c at. refl)
Reached-IsCalm s' (next s _ reached step) = Step-IsCalm s s' step (Reached-IsCalm s reached)
