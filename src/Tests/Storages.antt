-- ===== src/Tests/Storages.antt =====
-- The storage at concrete states.
use testground.Base.{
  ℕ, ◌≤◌, ◌<◌, ◌≡◌, ◌≢◌, refl, sym, ◌∙◌, true, List, ◌↔◌, ◌⊎◌, [], ◌∷◌, arith, Option, none, some,
  inl, inr, Bool-cases,
}
use testground.Base.Int.{pos}
use testground.Base.Errors.{Fallible, ok}
use testground.Task.{Task, TaskType, State, Time, unix}
use testground.Task.Errors.{TaskError}
use testground.Engine.Listing.{TasksFilters, is_listed, tasks}
use testground.Engine.Listing.Stored.{IsStored, tasks_correct}
use testground.Task.Bytes.{Bytes, codes, bytes_eq, bytes_eq_iff, format_int, before, HasTenDigits}
use testground.Task.Encoding.{Blob, marshal, unmarshal, forget_input, forget_result}
use testground.Task.Database.{Elem}
use testground.Task.Keys.{Phase, prefix, key_of-same}
use testground.Task.Storage.{
  put, get_task, change_prefix, key_of, filter, prefix_scheduled, prefix_processing,
  prefix_complete,
}
use testground.Task.Storage.Moves.{Moved, IsOnePhase, change_prefix-Moved}
use testground.Task.Storage.Phases.{change_prefix-IsOnePhase}
use testground.Task.Storage.Reads.{Answers, view, prefer, get_task-view}
use testground.Task.Storage.Ranges.{filter_complete, filter_sound, state_of}
use testground.Tests.Database.{Entries, test_db, test_xids, find, select}
use testground.Tests.Tasks.{urgent, late}

-- the tasks "urgent" and "late", scheduled
abbrev scheduled_two : Entries
scheduled_two =
    (key_of test_xids prefix_scheduled (codes "urgent"), marshal urgent)
    ∷ (key_of test_xids prefix_scheduled (codes "late"), marshal late)
    ∷ []

abbrev after_move : Entries
after_move =
    (change_prefix test_db test_xids prefix_processing prefix_scheduled "urgent" scheduled_two).1

moves :
    change_prefix test_db test_xids prefix_processing prefix_scheduled "urgent" scheduled_two
    ≡ (ok tt, after_move)
unfolding change_prefix find bytes_eq key_of format_int
moves = refl

apart : Phase.current ≢ Phase.queued
apart e = cc

change_prefix-Moved_example :
    (u : Bytes) × (test_xids.from_string "urgent" ≡ some u)
    × Moved test_db test_xids
        (key_of test_xids (prefix Phase.current) u)
        (key_of test_xids (prefix Phase.queued) u)
        scheduled_two
        after_move
change_prefix-Moved_example =
    change_prefix-Moved test_db test_xids Phase.current Phase.queued "urgent" scheduled_two
      after_move apart moves

abbrev with_urgent : Entries
with_urgent = (key_of test_xids prefix_scheduled (codes "urgent"), marshal urgent) ∷ []

-- the one task is under the one phase
one_stored : IsOnePhase test_db test_xids with_urgent
unfolding find
one_stored u p q p-q held =
    elim (Bool-cases (
      bytes_eq (key_of test_xids (prefix Phase.queued) (codes "urgent"))
        (key_of test_xids (prefix q) u))) [
          | inl same ↦
              elim (Bool-cases (
                bytes_eq (key_of test_xids (prefix Phase.queued) (codes "urgent"))
                  (key_of test_xids (prefix p) u))) [
                    | inl same' ↦ absurd (p-q (sym (phase_of p u same') ∙ phase_of q u same))
                    | inr apart' ↦ absurd (held (rw apart' refl))
                  ]
          | inr apart_keys ↦ rw apart_keys refl
        ]
  where
    phase_of :
        (r : Phase) (w : Bytes)
        → bytes_eq
            (key_of test_xids (prefix Phase.queued) (codes "urgent"))
            (key_of test_xids (prefix r) w)
          ≡ true
        → Phase.queued ≡ r
    phase_of r w e =
        (key_of-same test_xids Phase.queued r (codes "urgent") w ((bytes_eq_iff _ _).0 e)).0

change_prefix-IsOnePhase_example :
    IsOnePhase test_db test_xids
      (change_prefix test_db test_xids
        (prefix Phase.current)
        (prefix Phase.queued)
        "urgent"
        with_urgent).1
change_prefix-IsOnePhase_example =
    change_prefix-IsOnePhase test_db test_xids Phase.current Phase.queued "urgent" with_urgent apart
      one_stored

abbrev known : ◌≡◌ {A = Option Bytes} (test_xids.from_string "urgent") (some (codes "urgent"))
unfolding bytes_eq
known = refl

puts : put test_db test_xids (prefix Phase.queued) urgent [] ≡ (ok tt, with_urgent)
unfolding put bytes_eq
puts = refl

all_answered : (d : Entries) → Answers test_db test_xids d
all_answered d k = refl

get_task-view_example : get_task test_db test_xids "urgent" scheduled_two ≡ (
  prefer (view (find scheduled_two (key_of test_xids prefix_complete (codes "urgent")))) (
      prefer
        (view (find scheduled_two (key_of test_xids prefix_processing (codes "urgent"))))
        (view (find scheduled_two (key_of test_xids prefix_scheduled (codes "urgent"))))),
  scheduled_two,
)
get_task-view_example =
    get_task-view test_db test_xids "urgent" (codes "urgent") scheduled_two
      (all_answered scheduled_two) known

-- a window of ten seconds
abbrev window_start : Time
window_start = 63735596800000000000

abbrev window_end : Time
window_end = 63735596810000000000

from_unix : unix window_start ≡ pos 1600000000
unfolding unix
from_unix = refl

until_unix : unix window_end ≡ pos 1600000010
unfolding unix
until_unix = refl

abbrev read_urgent : Task
read_urgent = record urgent {
  input = forget_input urgent.input;
  result = forget_result urgent.result;
}

filtered :
    filter test_db test_xids (state_of Phase.queued) window_start window_end with_urgent
    ≡ ok (read_urgent ∷ [])
unfolding filter select find bytes_eq before key_of format_int unix unmarshal marshal
filtered = refl

ten_digits : (n : ℕ) → 1600000000 ≤ n → n < 1700000000 → HasTenDigits n
ten_digits n h k = (omega arith, omega arith)

is_stored :
    find with_urgent (key_of test_xids (prefix Phase.queued) (codes "urgent"))
    ≡ some (marshal urgent)
unfolding find bytes_eq key_of format_int
is_stored = refl

filter_complete_example :
    (t : Task) × (unmarshal (marshal urgent) ≡ ok t) × Elem t (read_urgent ∷ [])
filter_complete_example =
    filter_complete test_db test_xids Phase.queued window_start window_end 1600000000 1600000010
      with_urgent (read_urgent ∷ []) from_unix until_unix
      (ten_digits 1600000000 (omega arith) (omega arith))
      (ten_digits 1600000010 (omega arith) (omega arith)) filtered (codes "urgent") (marshal urgent)
      is_stored (ten_digits 1600000006 (omega arith) (omega arith)) (omega arith) (omega arith)

keyed :
    (k : Bytes)
    → find with_urgent k ≢ none
    → (q : Phase) × (u : Bytes) × (k ≡ key_of test_xids (prefix q) u)
      × HasTenDigits (test_xids.seconds u)
unfolding find
keyed k held = elim (Bool-cases (bytes_eq (key_of test_xids prefix_scheduled (codes "urgent")) k)) [
  | inl same ↦ (
    Phase.queued,
    codes "urgent",
    sym ((bytes_eq_iff (key_of test_xids prefix_scheduled (codes "urgent")) k).0 same),
    ten_digits 1600000006 (omega arith) (omega arith),
  )
  | inr apart_keys ↦ absurd (held (rw apart_keys refl))
]

filter_sound_example :
    (u : Bytes) × (b : Blob) × (find with_urgent (key_of test_xids (prefix Phase.queued) u)
      ≡ some b)
    × (unmarshal b ≡ ok read_urgent)
    × (1600000000 ≤ test_xids.seconds u)
    × (test_xids.seconds u < 1600000010)
filter_sound_example =
    filter_sound test_db test_xids Phase.queued window_start window_end 1600000000 1600000010
      with_urgent (read_urgent ∷ []) from_unix until_unix
      (ten_digits 1600000000 (omega arith) (omega arith))
      (ten_digits 1600000010 (omega arith) (omega arith)) filtered keyed read_urgent (inl refl)

abbrev in_window : TasksFilters
in_window = record {
  types = TaskType.run ∷ [];
  states = State.scheduled ∷ State.complete ∷ [];
  after = some window_end;
  before = some window_start;
  test_plan = "";
  test_case = "";
}

tasks_correct_example :
    ((out : List Task) × (◌≡◌ {A = Fallible TaskError (List Task) × ℕ}
        (tasks test_db test_xids in_window 0 with_urgent 1)
        (ok out, 1))
      × ((t : Task)
          → Elem t out ↔ (
              IsStored test_db test_xids in_window 0 with_urgent 1600000000 1600000010 from_unix
                until_unix
                (ten_digits 1600000000 (omega arith) (omega arith))
                (ten_digits 1600000010 (omega arith) (omega arith))
                keyed
                (Phase.queued ∷ Phase.archived ∷ [])
                t
              × (is_listed in_window t ≡ true))))
    ⊎ ((r : Fallible TaskError (List Task)) × ((tsks : List Task) → ¬ (r ≡ ok tsks))
        × (◌≡◌ {A = Fallible TaskError (List Task) × ℕ}
            (tasks test_db test_xids in_window 0 with_urgent 1)
            (r, 2)))
tasks_correct_example =
    tasks_correct test_db test_xids in_window 0 with_urgent 1600000000 1600000010 from_unix
      until_unix (ten_digits 1600000000 (omega arith) (omega arith))
      (ten_digits 1600000010 (omega arith) (omega arith)) keyed (Phase.queued ∷ Phase.archived ∷ [])
      1 refl
