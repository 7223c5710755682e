-- ===== src/Task/Storage/Reads.antt =====
-- Get and Delete look through the phases in one order, the archive first.
use testground.Base.{◌≡◌, refl, ap, ◌∙◌, String, Option, none, some, arith}
use testground.Base.Errors.{Fallible, ok, err, panic}
use testground.Base.Actions.{Action}
use testground.Task.{Task}
use testground.Task.Bytes.{Bytes}
use testground.Task.Encoding.{Blob, unmarshal, forget_input, forget_result, unmarshal-marshal}
use testground.Task.Storage.Phases.{put-stores}
use testground.Task.Errors.{TaskError, not_found, should_have_found}
use testground.Task.Database.{LevelDb, XidLib}
use testground.Task.Keys.{Phase, prefix}
use testground.Task.Storage.{
  prefix_scheduled, prefix_processing, prefix_complete, key_of, get, get_task, delete, delete_in,
  put, try_get, on_found, lift_db,
}

-- what a read of one phase returns
abbrev pub view : Option Blob → Fallible TaskError Task
view none = err not_found
view (some b) = unmarshal b

-- the first answer that is not ErrNotFound
abbrev pub prefer : Fallible TaskError Task → Fallible TaskError Task → Fallible TaskError Task
prefer (err not_found) r = r
prefer r s = r

module _ (level : LevelDb) (xids : XidLib) where
  open level use {Db, contents}
  open xids use {Xid, from_string}

  -- the database answers its reads
  abbrev pub Answers : Db → Type 0
  Answers d = (k : Bytes) → level.get d k ≡ ok (contents d k)

  module _ (id : String) (u : Xid) (d : Db) (answers : Answers d)
      (known : from_string id ≡ some u) where
    get-view : (p : Bytes) → get level xids p id d ≡ (view (contents d (key_of xids p u)), d)
    unfolding get
    get-view p = ground (arith, known, answers (key_of xids p u))

    -- Get answers with the archived task, else with the one in work, else with the queued one; what
    -- does not decode in an earlier phase is an error, whatever the later ones hold.
    pub get_task-view : get_task level xids id d ≡ (
      prefer (view (contents d (key_of xids prefix_complete u))) (
          prefer
            (view (contents d (key_of xids prefix_processing u)))
            (view (contents d (key_of xids prefix_scheduled u)))),
      d,
    )
    unfolding get_task
    get_task-view =
        ground
          (arith, get-view prefix_complete, get-view prefix_processing, get-view prefix_scheduled)

    -- what Delete does in the phase where it finds the task
    abbrev pub removed : Bytes → Fallible TaskError (Unit {0}) × Db
    removed p = let (r, d') = level.delete (key_of xids p u) d in (lift_db r, d')

    -- the branch of Delete by the answer of one phase
    abbrev pub pick :
        Fallible TaskError Task
        → Fallible TaskError (Unit {0}) × Db
        → Fallible TaskError (Unit {0}) × Db
        → Fallible TaskError (Unit {0}) × Db
    pick (ok t) found otherwise = found
    pick (err not_found) found otherwise = otherwise
    pick (err e) found otherwise = (err e, d)
    pick panic found otherwise = (panic, d)

    delete_in-removed : (p : Bytes) (t : Task) → t.id ≡ id → delete_in level xids p t d ≡ removed p
    unfolding delete_in
    delete_in-removed p t own = ground (arith, known)

    try_delete :
        (p : Bytes) (other : Action Db TaskError (Unit {0}))
        → ((t : Task) → view (contents d (key_of xids p u)) ≡ ok t → t.id ≡ id)
        → try_get level xids p id (delete_in level xids p) other d
          ≡ pick (view (contents d (key_of xids p u))) (removed p) (other d)
    try_delete p other own = rw (get-view p) (go (view (contents d (key_of xids p u))) refl)
      where
        go :
            (v : Fallible TaskError Task)
            → view (contents d (key_of xids p u)) ≡ v
            → on_found level xids v (delete_in level xids p) other d ≡ pick v (removed p) (other d)
        go (ok t) e = delete_in-removed p t (own t e)
        go (err not_found) e = refl
        go (err x) e = refl
        go panic e = refl

    -- Delete removes the entry of the first phase that has the task, in the order of Get; an entry
    -- that does not decode stops it with an error, and a task that is in no phase is reported.
    pub delete-view :
        ((p : Phase) (t : Task) → view (contents d (key_of xids (prefix p) u)) ≡ ok t → t.id ≡ id)
        → delete level xids id d
          ≡ pick (view (contents d (key_of xids prefix_complete u))) (removed prefix_complete) (
              pick
                (view (contents d (key_of xids prefix_processing u)))
                (removed prefix_processing)
                (pick
                  (view (contents d (key_of xids prefix_scheduled u)))
                  (removed prefix_scheduled)
                  (err should_have_found, d)))
    unfolding delete
    delete-view own =
        try_delete prefix_complete _ (own Phase.archived)
        ∙ ap (pick (view (contents d (key_of xids prefix_complete u))) (removed prefix_complete)) (
            try_delete prefix_processing _ (own Phase.current)
            ∙ ap
                (pick (view (contents d (key_of xids prefix_processing u)))
                  (removed prefix_processing))
                (try_delete prefix_scheduled _ (own Phase.queued)))

  -- What a put stored is what Get of the same phase reads: the task, its payloads without their Go
  -- types.
  pub get-put :
      (p : Phase) (t : Task) (u : Xid) (d d' : Db)
      → from_string t.id ≡ some u
      → put level xids (prefix p) t d ≡ (ok tt, d')
      → Answers d'
      → get level xids (prefix p) t.id d'
        ≡ (ok (record t { input = forget_input t.input; result = forget_result t.result }), d')
  get-put p t u d d' known done answers =
      get-view t.id u d' answers known (prefix p)
      ∙ rw ((put-stores level xids p t u d d' known done).0) (rw (unmarshal-marshal t))
