-- ===== src/Task/Queue/Lost.antt =====
-- pkg/task/queue.go: NewQueue also loads the tasks under "current", which were in work when the
-- daemon stopped; Pop moves a task from "queue".
use testground.Base.{suc, ◌<◌, ◌≡◌, ◌≢◌, refl, ap, none, length}
use testground.Base.Errors.{Fallible, ok, err, panic}
use testground.Base.Arrays.{perm_length}
use testground.Task.{Task}
use testground.Task.Errors.{TaskError}
use testground.Task.Database.{LevelDb, XidLib}
use testground.Task.Keys.{Phase}
use testground.Task.Storage.{key_of, process_task, prefix_scheduled, prefix_processing}
use testground.Task.Storage.Moves.{change_prefix-Moved, change_prefix-absent}
use testground.Task.Queue.{Queue, processed, pop}
use testground.Task.Queue.Operations.{IsValid, pop_correct}

module _ (level : LevelDb) (xids : XidLib) where
  open level use {Db, contents}
  open xids use {Xid}

  -- no task waits in the storage
  abbrev pub NoneWaiting : Db → Type 0
  NoneWaiting d = (u : Xid) → contents d (key_of xids prefix_scheduled u) ≡ none

  current-queued : Phase.current ≢ Phase.queued
  current-queued h = cc

  pair_eq :
      (r : Fallible TaskError (Unit {0}) × Db)
      → r.0 ≡ ok tt
      → ◌≡◌ {A = Fallible TaskError (Unit {0}) × Db} r (ok tt, r.1)
  pair_eq (x, d) h = rw h refl

  process_task-absent :
      (t : Task) (d : Db) → NoneWaiting d → (process_task level xids t d).0 ≢ ok tt
  unfolding process_task
  process_task-absent t d absent h =
      let (u, known, moved) =
        change_prefix-Moved level xids Phase.current Phase.queued t.id d
          (process_task level xids t d).1 current-queued
          (pair_eq (process_task level xids t d) h) in
      cc (absent u, moved.held)

  process_task-unmoved : (t : Task) (d : Db) → NoneWaiting d → (process_task level xids t d).1 ≡ d
  unfolding process_task
  process_task-unmoved t d absent =
      change_prefix-absent level xids prefix_processing prefix_scheduled t.id d
        (λ u known. absent u)

  processed-refused :
      (q : Queue Db) (t : Task) (r : Fallible TaskError (Unit {0})) (d : Db)
      → r ≢ ok tt
      → d ≡ q.ts
      → ((s : Task) → (processed level xids q t (r, d)).0 ≢ ok s)
        × ((processed level xids q t (r, d)).1 ≡ q)
  processed-refused q t (ok _) d h same = absurd (h refl)
  processed-refused q t (err e) d h same = ((λ s k. cc), cc same)
  processed-refused q t panic d h same = ((λ s k. cc), cc same)

  -- Where the storage holds no task under "queue", a Pop on a valid queue that is not empty
  -- returns no task, leaves the storage as it was, and yet takes a task off the heap: the tasks
  -- that NewQueue loaded from "current" are lost.
  pub pop-lost :
      (q : Queue Db)
      → IsValid q
      → 0 < length q.tq
      → NoneWaiting q.ts
      → ((t : Task) → (pop level xids q).0 ≢ ok t)
        × ((pop level xids q).1.ts ≡ q.ts)
        × (suc (length (pop level xids q).1.tq) ≡ length q.tq)
  pop-lost q v h absent =
      let (t, rest, ran, out, valid) = pop_correct level xids q v h in
      let refused = process_task-absent t q.ts absent in
      let (none_returned, state) =
        processed-refused (record q { tq = rest }) t (process_task level xids t q.ts).0
          (process_task level xids t q.ts).1 refused (process_task-unmoved t q.ts absent) in
      (
        rw ran none_returned,
        rw ran (ap (λ (x : Queue Db). x.ts) state),
        rw ran (rw (ap (λ (x : Queue Db). x.tq) state) (perm_length out.same)),
      )
