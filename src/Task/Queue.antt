-- ===== src/Task/Queue.antt =====
-- pkg/task/queue.go: a bounded priority queue of tasks, persisted in the storage.
pub mod Order
pub mod Operations
pub mod Lost
use testground.Base.{
  ℕ, suc, ◌+◌, ◌-◌, String, Bool, true, false, not, Option, none, some, List, [], ◌∷◌, ◌++◌, ltb,
  ◌==◌, if◌then◌else◌, length, get_elem?, take,
}
use testground.Base.Int.{ℤ, pos, pos_part, neg_part, ltb_ℤ}
use testground.Base.Errors.{Fallible, ok, err, panic, ◌>>=◌}
use testground.Base.Actions.{Action}
use testground.Task.{Task, Time, created}
use testground.Task.Bytes.{Bytes}
use testground.Task.Encoding.{Blob}
use testground.Task.Errors.{TaskError, queue_empty, queue_full}
use testground.Task.Database.{LevelDb, XidLib}
use testground.Task.Storage.{prefix_scheduled, prefix_processing, persist_scheduled, process_task}
use testground.Task.Heap.{Run, or_panic, swap, up, down}

abbrev pub eq_ℤ : ℤ → ℤ → Bool
eq_ℤ a b = pos_part a + neg_part b == pos_part b + neg_part a

-- Less: the higher priority first, and of one priority the earlier task
unfoldable pub less : Task → Task → Run Bool
unfolding created
less x y =
    if not (eq_ℤ x.priority y.priority)
    then ok (ltb_ℤ y.priority x.priority)
    else (do c ← created x; d ← created y; ok (ltb c d))

-- `heap.Push(tq, tsk)`, with the Push of taskQueue that appends
unfoldable pub heap_push : List Task → Task → Run (List Task)
heap_push tq tsk = up less (length tq + 1) (tq ++ tsk ∷ []) (length tq)

-- `heap.Pop(tq)`, with the Pop of taskQueue that cuts the last element off
unfoldable pub heap_pop : List Task → Run (Task × List Task)
heap_pop tq = do
  let n = length tq - 1
  ys ← swap tq 0 n
  zs ← down less (n + 1) ys 0 n
  t ← or_panic (get_elem? zs n)
  ok (t, take n zs)

-- the storage is a pointer that others share: `ts` is its state when the lock is held
pub record Queue (Db : Type 0) : Type 0 where
  pub tq : List Task
  pub ts : Db
  pub max : ℤ

-- the inner loop of NewQueue
unfoldable pub load :
    (Blob → Fallible TaskError Task)
    → List (Bytes × Blob)
    → List Task
    → Fallible TaskError (List Task)
load converter [] tq = ok tq
load converter ((k, val) ∷ rest) tq =
    converter val >>= λ tsk. heap_push tq tsk >>= λ tq'. load converter rest tq'

module _ (level : LevelDb) (xids : XidLib) where
  open level use {Db, iterate_prefix}

  -- the heap operation after the task was persisted; a panic in `Less` leaves the appended task
  abbrev pub pushed :
      Queue Db → Task → Fallible TaskError (List Task) → Fallible TaskError (Unit {0}) × Queue Db
  pushed q tsk (ok tq') = (ok tt, record q { tq = tq' })
  pushed q tsk (err e) = (err e, record q { tq = q.tq ++ tsk ∷ [] })
  pushed q tsk panic = (panic, record q { tq = q.tq ++ tsk ∷ [] })

  abbrev pub persisted :
      Queue Db
      → Task
      → Fallible TaskError (Unit {0}) × Db
      → Fallible TaskError (Unit {0}) × Queue Db
  persisted q tsk (ok _, d) = pushed (record q { ts = d }) tsk (heap_push q.tq tsk)
  persisted q tsk (err e, d) = (err e, record q { ts = d })
  persisted q tsk (panic, d) = (panic, record q { ts = d })

  -- Push
  unfoldable pub push : Task → Action (Queue Db) TaskError (Unit {0})
  push tsk q =
      if not (ltb_ℤ (pos (length q.tq)) q.max)
      then (err queue_full, q)
      else persisted q tsk (persist_scheduled level xids tsk q.ts)

  abbrev pub processed :
      Queue Db → Task → Fallible TaskError (Unit {0}) × Db → Fallible TaskError Task × Queue Db
  processed q tsk (ok _, d) = (ok tsk, record q { ts = d })
  processed q tsk (err e, d) = (err e, record q { ts = d })
  processed q tsk (panic, d) = (panic, record q { ts = d })

  abbrev pub popped :
      Queue Db → Fallible TaskError (Task × List Task) → Fallible TaskError Task × Queue Db
  popped q (ok (tsk, tq')) =
      processed (record q { tq = tq' }) tsk (process_task level xids tsk q.ts)
  popped q (err e) = (err e, q)
  popped q panic = (panic, q)

  -- Pop
  unfoldable pub pop : Action (Queue Db) TaskError Task
  pop q = if length q.tq == 0 then (err queue_empty, q) else popped q (heap_pop q.tq)

  -- NewQueue
  unfoldable pub new_queue :
      Db → ℤ → (Blob → Fallible TaskError Task) → Fallible TaskError (Queue Db)
  unfolding load
  new_queue ts max converter = do
    tq ← load converter (iterate_prefix ts prefix_scheduled) []
    tq' ← load converter (iterate_prefix ts prefix_processing) tq
    ok (record { tq = tq'; ts = ts; max = max })
