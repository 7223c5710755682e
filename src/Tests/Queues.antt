-- ===== src/Tests/Queues.antt =====
-- The queue at concrete states.
use mathlib.Core.List.{Perm}
use testground.Base.{
  ℕ, zero, suc, ◌-◌, ◌/◌, ◌<◌, ◌≡◌, ◌≢◌, refl, false, List, [], ◌∷◌, length, arith,
}
use testground.Base.Arrays.{entry}
use testground.Base.Int.{pos}
use testground.Base.Errors.{ok}
use testground.Task.{Task}
use testground.Task.Bytes.{codes, bytes_eq, format_int}
use testground.Task.Encoding.{marshal, unmarshal_task}
use testground.Task.Storage.{
  put, persist_scheduled, process_task, key_of, prefix_scheduled, prefix_processing,
}
use testground.Task.Queue.{Queue, push, pop, processed, new_queue}
use testground.Task.Queue.Order.{IsOrdered, Popped, any_task, goes_before}
use testground.Task.Queue.Operations.{
  IsValid, push_correct, pop_correct, convert_all, new_queue_correct,
}
use testground.Task.Queue.Lost.{NoneWaiting, pop-lost}
use testground.Tests.Database.{Entries, test_db, test_xids, find, select}
use testground.Tests.Tasks.{urgent, early, late}

abbrev two : List Task
two = urgent ∷ late ∷ []

two-IsOrdered : IsOrdered two
unfolding entry goes_before
two-IsOrdered = record { heap = heap; fit = fit }
  where
    heap :
        (c : ℕ)
        → 0 < c
        → c < 2
        → goes_before (entry any_task two c) (entry any_task two ((c - 1) / 2)) ≡ false
    heap c p q = let last : c ≡ 1 = omega arith in rw last refl

    fit : (i : ℕ) → i < 2 → (entry any_task two i).states ≢ []
    fit zero q e = cc
    fit (suc zero) q e = cc
    fit (suc (suc i)) q e = absurd (omega arith)

abbrev waiting : Entries
waiting =
    (key_of test_xids prefix_scheduled (codes "urgent"), marshal urgent)
    ∷ (key_of test_xids prefix_scheduled (codes "late"), marshal late)
    ∷ []

abbrev queue_of_two : Queue Entries
queue_of_two = record { tq = two; ts = waiting; max = pos 3 }

queue_of_two-IsValid : IsValid queue_of_two
queue_of_two-IsValid = record { ordered = two-IsOrdered; bounded = refl }

early-states : early.states ≢ []
early-states e = cc

pop_correct_example :
    (t : Task) × (rest : List Task) × (pop test_db test_xids queue_of_two
      ≡ processed test_db test_xids
          (record queue_of_two { tq = rest })
          t
          (process_task test_db test_xids t waiting))
    × Popped two t rest
    × IsValid {Db = Entries} (record queue_of_two { tq = rest })
pop_correct_example = pop_correct test_db test_xids queue_of_two queue_of_two-IsValid (omega arith)

abbrev stored : Entries
stored = (key_of test_xids prefix_scheduled (codes "early"), marshal early) ∷ waiting

early-stored : persist_scheduled test_db test_xids early waiting ≡ (ok tt, stored)
unfolding persist_scheduled put bytes_eq
early-stored = refl

push_correct_example :
    (tq : List Task) × (push test_db test_xids early queue_of_two
      ≡ (ok tt, record queue_of_two { tq = tq; ts = stored }))
    × IsValid {Db = Entries} (record queue_of_two { tq = tq; ts = stored })
    × Perm tq (early ∷ two)
push_correct_example =
    push_correct test_db test_xids early queue_of_two stored queue_of_two-IsValid early-states refl
      early-stored

-- a queue whose tasks were loaded from "current"
abbrev interrupted : Queue Entries
interrupted = record {
  tq = two;
  ts =
      (key_of test_xids prefix_processing (codes "urgent"), marshal urgent)
      ∷ (key_of test_xids prefix_processing (codes "late"), marshal late)
      ∷ [];
  max = pos 3;
}

interrupted-IsValid : IsValid interrupted
interrupted-IsValid = record { ordered = two-IsOrdered; bounded = refl }

interrupted-NoneWaiting : NoneWaiting test_db test_xids interrupted.ts
unfolding find key_of bytes_eq
interrupted-NoneWaiting u = refl

pop-lost_example :
    ((t : Task) → (pop test_db test_xids interrupted).0 ≢ ok t)
    × ((pop test_db test_xids interrupted).1.ts ≡ interrupted.ts)
    × (suc (length (pop test_db test_xids interrupted).1.tq) ≡ length interrupted.tq)
pop-lost_example =
    pop-lost test_db test_xids interrupted interrupted-IsValid (omega arith) interrupted-NoneWaiting

-- one task of each kind
abbrev restarted : Entries
restarted =
    (key_of test_xids prefix_scheduled (codes "late"), marshal late)
    ∷ (key_of test_xids prefix_processing (codes "urgent"), marshal urgent)
    ∷ []

restarted-waiting :
    convert_all unmarshal_task (test_db.iterate_prefix restarted prefix_scheduled) ≡ ok (late ∷ [])
unfolding convert_all unmarshal_task marshal key_of select find bytes_eq format_int
restarted-waiting = refl

restarted-active :
    convert_all unmarshal_task (test_db.iterate_prefix restarted prefix_processing)
    ≡ ok (urgent ∷ [])
unfolding convert_all unmarshal_task marshal key_of select find bytes_eq format_int
restarted-active = refl

new_queue_correct_example :
    (q : Queue Entries) × (new_queue test_db test_xids restarted (pos 3) unmarshal_task ≡ ok q)
    × IsOrdered q.tq
    × Perm q.tq (urgent ∷ late ∷ [])
    × (q.max ≡ pos 3)
    × (q.ts ≡ restarted)
new_queue_correct_example =
    new_queue_correct unmarshal_task test_db test_xids restarted (pos 3) (late ∷ []) (urgent ∷ [])
      restarted-waiting restarted-active ((λ e. cc), tt) ((λ e. cc), tt)
