-- ===== src/Task/Queue/Operations.antt =====
-- What Push, Pop and NewQueue of pkg/task/queue.go do to the order and the contents of the heap.
use mathlib.Core.List.{Perm, perm_middle, append-nil}
use mathlib.Core.List.Perm
use testground.Base.{
  ℕ, ◌<◌, ◌≡◌, ◌≢◌, ◌∙◌, refl, true, false, List, [], ◌∷◌, ◌++◌, arith, ◌==◌, length, All,
}
use testground.Base.Int.{ℤ, pos, ltb_ℤ}
use testground.Base.Errors.{Fallible, ok, err, ◌>>=◌, >>=-eq-ok}
use testground.Base.Arrays.{perm_length}
use testground.Task.{Task}
use testground.Task.Bytes.{Bytes}
use testground.Task.Encoding.{Blob}
use testground.Task.Errors.{TaskError, queue_empty, queue_full}
use testground.Task.Database.{LevelDb, XidLib}
use testground.Task.Storage.{prefix_scheduled, prefix_processing, persist_scheduled, process_task}
use testground.Task.Queue.{Queue, heap_push, processed, push, pop, load, new_queue}
use testground.Task.Queue.Order.{IsOrdered, Popped, heap_push_correct, heap_pop_correct}

-- no more tasks than the bound
abbrev pub IsBounded : ℕ → ℤ → Type 0
IsBounded n max = ltb_ℤ max (pos n) ≡ false

pub record IsValid {Db : Type 0} (q : Queue Db) : Type 0 where
  pub ordered : IsOrdered q.tq
  pub bounded : IsBounded (length q.tq) q.max

-- what NewQueue should load: each value converted, the first error ending it
unfoldable pub convert_all :
    (Blob → Fallible TaskError Task) → List (Bytes × Blob) → Fallible TaskError (List Task)
convert_all converter [] = ok []
convert_all converter ((k, val) ∷ rest) =
    converter val >>= λ t. convert_all converter rest >>= λ ts. ok (t ∷ ts)

module _ (level : LevelDb) (xids : XidLib) where
  open level use {Db, iterate_prefix}

  -- Push on a valid queue with room, when the storage takes the task, returns no error and adds
  -- exactly the task; the queue stays valid.
  pub push_correct :
      (t : Task) (q : Queue Db) (d : Db)
      → IsValid q
      → t.states ≢ []
      → ltb_ℤ (pos (length q.tq)) q.max ≡ true
      → persist_scheduled level xids t q.ts ≡ (ok tt, d)
      → (tq : List Task) × (push level xids t q ≡ (ok tt, record q { tq = tq; ts = d }))
        × IsValid (record q { tq = tq; ts = d })
        × Perm tq (t ∷ q.tq)
  unfolding push
  push_correct t q d v has_state room stored =
      let (tq, ran, ordered, same) = heap_push_correct q.tq t v.ordered has_state in
      (
        tq,
        rw (room, stored) (rw ran),
        record { ordered = ordered; bounded = ground (arith, perm_length same) },
        same,
      )

  -- Push on a queue that is at its bound, or over it, returns ErrQueueFull, and writes neither to
  -- the heap nor to the storage.
  pub push-full :
      (t : Task) (q : Queue Db)
      → ltb_ℤ (pos (length q.tq)) q.max ≡ false
      → push level xids t q ≡ (err queue_full, q)
  unfolding push
  push-full t q full = rw full

  -- Push that the storage refuses returns the storage's error and leaves the heap as it was.
  pub push_unstored :
      (t : Task) (q : Queue Db) (e : TaskError) (d : Db)
      → ltb_ℤ (pos (length q.tq)) q.max ≡ true
      → persist_scheduled level xids t q.ts ≡ (err e, d)
      → push level xids t q ≡ (err e, record q { ts = d })
  unfolding push
  push_unstored t q e d room refused = rw (room, refused)

  -- Pop on an empty queue returns ErrQueueEmpty and changes nothing.
  pub pop-empty : (q : Queue Db) → q.tq ≡ [] → pop level xids q ≡ (err queue_empty, q)
  unfolding pop
  pop-empty q h = rw h

  -- Pop on a valid queue that is not empty takes a task that no other goes before off the heap,
  -- keeps all the others, and returns it, or the error of the storage that could not move it; the
  -- task is off the heap in both cases.
  pub pop_correct :
      (q : Queue Db)
      → IsValid q
      → 0 < length q.tq
      → (t : Task) × (rest : List Task) × (pop level xids q
          ≡ processed level xids (record q { tq = rest }) t (process_task level xids t q.ts))
        × Popped q.tq t rest
        × IsValid (record q { tq = rest })
  unfolding pop
  pop_correct q v h =
      let (t, rest, ran, out) = heap_pop_correct q.tq v.ordered h in
      let some_left : (length q.tq == 0) ≡ false = ground arith in
      (
        t,
        rest,
        rw some_left (rw ran),
        out,
        record { ordered = out.ordered; bounded = ground (arith, v.bounded, perm_length out.same) },
      )

-- each task has a state, and so a creation time
abbrev pub HaveStates : List Task → Type 0
HaveStates ts = All (λ (t : Task). t.states ≢ []) ts

module _ (converter : Blob → Fallible TaskError Task) where
  load-cons :
      (k : Bytes) (b : Blob) (rest : List (Bytes × Blob)) (tq tq' : List Task) (t : Task)
      → converter b ≡ ok t
      → heap_push tq t ≡ ok tq'
      → load converter ((k, b) ∷ rest) tq ≡ load converter rest tq'
  unfolding load
  load-cons k b rest tq tq' t converted run = rw converted (rw run)

  convert_all-cons :
      (k : Bytes) (b : Blob) (rest : List (Bytes × Blob)) (ts : List Task)
      → convert_all converter ((k, b) ∷ rest) ≡ ok ts
      → (t : Task) × (us : List Task) × (converter b ≡ ok t)
        × (convert_all converter rest ≡ ok us)
        × (ts ≡ t ∷ us)
  unfolding convert_all
  convert_all-cons k b rest ts h =
      let (t, converted, h₁) = >>=-eq-ok (converter b) _ h in
      let (us, more, h₂) = >>=-eq-ok (convert_all converter rest) _ h₁ in
      (t, us, converted, more, cc)

  nothing : (ts : List Task) → convert_all converter [] ≡ ok ts → ts ≡ []
  unfolding convert_all
  nothing ts h = cc

  load_correct :
      (entries : List (Bytes × Blob)) (tq ts : List Task)
      → IsOrdered tq
      → convert_all converter entries ≡ ok ts
      → HaveStates ts
      → (tq' : List Task) × (load converter entries tq ≡ ok tq')
        × IsOrdered tq'
        × Perm tq' (ts ++ tq)
  load_correct [] tq ts v h stated = (tq, unfold load in refl, v, rw (nothing ts h) Perm.rfl)
  load_correct ((k, b) ∷ rest) tq ts v h stated =
      let (t, us, converted, more, whole) = convert_all-cons k b rest ts h in
      let each : HaveStates (t ∷ us) = rw whole at stated in
      let (tq₁, run, v₁, same₁) = heap_push_correct tq t v each.0 in
      let (tq₂, ran, v₂, same₂) = load_correct rest tq₁ us v₁ more each.1 in
      (
        tq₂,
        load-cons k b rest tq tq₁ t converted run ∙ ran,
        v₂,
        Perm.trans same₂ (rw whole (Perm.trans (Perm.append_left us same₁) (perm_middle us tq))),
      )

  module _ (level : LevelDb) (xids : XidLib) where
    open level use {Db, iterate_prefix}

    IsOrdered-nil : IsOrdered []
    IsOrdered-nil = record {
      heap = λ c p q. absurd (omega arith);
      fit = λ i q. absurd (omega arith);
    }

    -- NewQueue over a storage whose scheduled and processing values all convert to tasks with a
    -- state returns an ordered
    -- queue of exactly these tasks, with the bound that was asked for.
    pub new_queue_correct :
        (d : Db) (max : ℤ) (waiting active : List Task)
        → convert_all converter (iterate_prefix d prefix_scheduled) ≡ ok waiting
        → convert_all converter (iterate_prefix d prefix_processing) ≡ ok active
        → HaveStates waiting
        → HaveStates active
        → (q : Queue Db) × (new_queue level xids d max converter ≡ ok q)
          × IsOrdered q.tq
          × Perm q.tq (active ++ waiting)
          × (q.max ≡ max)
          × (q.ts ≡ d)
    unfolding new_queue
    new_queue_correct d max waiting active h k sw sa =
        let (tq, ran, v, same) =
          load_correct (iterate_prefix d prefix_scheduled) [] waiting IsOrdered-nil h sw in
        let (tq', ran', v', same') =
          load_correct (iterate_prefix d prefix_processing) tq active v k sa in
        (
          record { tq = tq'; ts = d; max = max },
          rw (ran, ◌>>=◌) (rw ran'),
          v',
          Perm.trans same' (Perm.append_left active (rw (append-nil waiting) at same)),
          refl,
          refl,
        )
