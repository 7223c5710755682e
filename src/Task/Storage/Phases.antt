-- ===== src/Task/Storage/Phases.antt =====
-- How changePrefix, by ProcessTask and ArchiveTask, and put of pkg/task/storage.go change the
-- phases under which a task is stored.
use testground.Base.{
  ◌≡◌, ◌≢◌, refl, sym, ap, ◌∙◌, subst, inl, inr, String, Option, none, some, Bool-cases,
}
use testground.Base.Errors.{Fallible, ok, err, panic}
use testground.Task.{Task}
use testground.Task.Bytes.{Bytes, bytes_eq, eq_of_bytes_eq, bytes_eq_self}
use testground.Task.Encoding.{Blob, marshal}
use testground.Task.Errors.{TaskError}
use testground.Task.Database.{LevelDb, XidLib}
use testground.Task.Keys.{Phase, prefix, key_of-same}
use testground.Task.Storage.{lift_db, key_of, change_prefix, put}
use testground.Task.Storage.Moves.{
  Moved, IsOnePhase, change_prefix-Moved, change_prefix-unmoved, lift_db-eq-ok,
}

-- a split on whether two keys are one
Bytes-cases : (a b : Bytes) → Dec (a ≡ b)
Bytes-cases a b = elim (Bool-cases (bytes_eq a b)) [
  | inl same ↦ yes (eq_of_bytes_eq a b same)
  | inr apart ↦ no (λ e. cc (apart, bytes_eq_self b, ap (λ (x : Bytes). bytes_eq x b) e))
]

module _ (level : LevelDb) (xids : XidLib) where
  open level use {Db, contents}
  open xids use {Xid, from_string}

  -- what is stored of a task under each phase
  abbrev pub at : Db → Phase → Xid → Option Blob
  at d p u = contents d (key_of xids (prefix p) u)

  module _ (p q : Phase) (u : Xid) (d d' : Db) (apart : p ≢ q)
      (moved : Moved level xids (key_of xids (prefix p) u) (key_of xids (prefix q) u) d d')
      (one : IsOnePhase level xids d) where
    -- the task that moved was under no phase but the one that it left
    alone : (r : Phase) → r ≢ q → at d r u ≡ none
    alone r h = one u q r (λ e. h (sym e)) (λ e. cc (e, moved.held))

    abbrev new : Bytes
    new = key_of xids (prefix p) u

    abbrev old : Bytes
    old = key_of xids (prefix q) u

    -- the phases other than the new one that can hold the task hold nothing
    empty_beside_new :
        (r s : Phase) (w : Xid)
        → r ≢ s
        → key_of xids (prefix r) w ≢ old
        → key_of xids (prefix s) w ≡ new
        → at d' r w ≡ none
    empty_beside_new r s w r-s r-old e =
        let same = key_of-same xids s p w u e in
        let w-u : key_of xids (prefix r) w ≡ key_of xids (prefix r) u =
          ap (λ (x : Xid). key_of xids (prefix r) x) same.1 in
        let r-new : key_of xids (prefix r) w ≢ new =
          λ k. r-s ((key_of-same xids r p w u k).0 ∙ sym same.0) in
        moved.others _ r-new r-old
        ∙ ap (contents d) w-u
        ∙ alone r (λ k. r-old (w-u ∙ ap (λ (x : Phase). key_of xids (prefix x) u) k))

    Moved-IsOnePhase : IsOnePhase level xids d'
    Moved-IsOnePhase w r s r-s held = elim (Bytes-cases (key_of xids (prefix s) w) old) [
      | yes e ↦ rw e moved.left
      | no s-old ↦ elim (Bytes-cases (key_of xids (prefix r) w) old) [
        | yes e ↦ absurd (held (rw e moved.left))
        | no r-old ↦ elim (Bytes-cases (key_of xids (prefix s) w) new) [
          | yes e ↦ absurd (held (empty_beside_new r s w r-s r-old e))
          | no s-new ↦ elim (Bytes-cases (key_of xids (prefix r) w) new) [
            | yes e ↦ empty_beside_new s r w (λ k. r-s (sym k)) s-old e
            | no r-new ↦
                moved.others _ s-new s-old
                ∙ one w r s r-s (λ k. held (moved.others _ r-new r-old ∙ k))
          ]
        ]
      ]
    ]

  unmoved-IsOnePhase :
      (d d' : Db)
      → IsOnePhase level xids d
      → ((j : Bytes) → contents d' j ≡ contents d j)
      → IsOnePhase level xids d'
  unmoved-IsOnePhase d d' one same u p q p-q held = same _ ∙ one u p q p-q (λ e. held (same _ ∙ e))

  snd_eq : {x y : Fallible TaskError (Unit {0}) × Db} → x ≡ y → x.1 ≡ y.1
  snd_eq e = ap (λ (x : Fallible TaskError (Unit {0}) × Db). x.1) e

  -- ProcessTask and ArchiveTask, which are changePrefix between two phases, keep every task in at
  -- most one phase, whether they succeed or fail.
  pub change_prefix-IsOnePhase :
      (p q : Phase) (id : String) (d : Db)
      → p ≢ q
      → IsOnePhase level xids d
      → IsOnePhase level xids (change_prefix level xids (prefix p) (prefix q) id d).1
  change_prefix-IsOnePhase p q id d apart one =
      go (change_prefix level xids (prefix p) (prefix q) id d) refl
    where
      go :
          (r : Fallible TaskError (Unit {0}) × Db)
          → change_prefix level xids (prefix p) (prefix q) id d ≡ r
          → IsOnePhase level xids r.1
      go (ok _, d') e =
          let (u, known, moved) = change_prefix-Moved level xids p q id d d' apart e in
          Moved-IsOnePhase p q u d d' apart moved one
      go (err x, d') e =
          subst (λ (x : Db). IsOnePhase level xids x) (snd_eq e)
            (unmoved-IsOnePhase d _ one
              (change_prefix-unmoved level xids (prefix p) (prefix q) id d (λ k. cc (e, k))))
      go (panic, d') e =
          subst (λ (x : Db). IsOnePhase level xids x) (snd_eq e)
            (unmoved-IsOnePhase d _ one
              (change_prefix-unmoved level xids (prefix p) (prefix q) id d (λ k. cc (e, k))))

  put-eq :
      (p : Phase) (t : Task) (u : Xid) (d : Db)
      → from_string t.id ≡ some u
      → put level xids (prefix p) t d ≡ (
        lift_db (level.put (key_of xids (prefix p) u) (marshal t) d).0,
        (level.put (key_of xids (prefix p) u) (marshal t) d).1,
      )
  unfolding put
  put-eq p t u d known = rw known

  -- A put that succeeds stores the task's encoding under its key, and nothing else changes.
  pub put-stores :
      (p : Phase) (t : Task) (u : Xid) (d d' : Db)
      → from_string t.id ≡ some u
      → put level xids (prefix p) t d ≡ (ok tt, d')
      → (at d' p u ≡ some (marshal t))
        × ((j : Bytes) → key_of xids (prefix p) u ≢ j → contents d' j ≡ contents d j)
  put-stores p t u d d' known done = (
    rw (← after) (level.put_self key (marshal t) d worked),
    λ j h. rw (← after) (level.put_other key (marshal t) d worked j h),
  )
    where
      key : Bytes
      key = key_of xids (prefix p) u

      run :
          ◌≡◌ {A = Fallible TaskError (Unit {0}) × Db}
            (lift_db (level.put key (marshal t) d).0, (level.put key (marshal t) d).1)
            (ok tt, d')
      run = sym (put-eq p t u d known) ∙ done

      worked : (level.put key (marshal t) d).0 ≡ ok tt
      worked = lift_db-eq-ok _ (ap (λ (x : Fallible TaskError (Unit {0}) × Db). x.0) run)

      after : (level.put key (marshal t) d).1 ≡ d'
      after = ap (λ (x : Fallible TaskError (Unit {0}) × Db). x.1) run

  -- A put of a task that no other phase holds, when it succeeds, stores the task's encoding under
  -- the phase and keeps every task in at most one phase.
  pub put-IsOnePhase :
      (p : Phase) (t : Task) (u : Xid) (d d' : Db)
      → from_string t.id ≡ some u
      → put level xids (prefix p) t d ≡ (ok tt, d')
      → ((q : Phase) → q ≢ p → at d q u ≡ none)
      → IsOnePhase level xids d
      → (at d' p u ≡ some (marshal t)) × IsOnePhase level xids d'
  put-IsOnePhase p t u d d' known done beside one = ((put-stores p t u d d' known done).0, one')
    where
      key : Bytes
      key = key_of xids (prefix p) u

      others : (j : Bytes) → key ≢ j → contents d' j ≡ contents d j
      others = (put-stores p t u d d' known done).1

      empty_beside :
          (r s : Phase) (w : Xid) → r ≢ s → key ≡ key_of xids (prefix s) w → at d' r w ≡ none
      empty_beside r s w r-s e =
          let same = key_of-same xids p s u w e in
          let r-p : r ≢ p = λ k. r-s (k ∙ same.0) in
          others _ (λ k. r-p (sym (key_of-same xids p r u w k).0))
          ∙ ap (λ (x : Xid). at d r x) (sym same.1)
          ∙ beside r r-p

      one' : IsOnePhase level xids d'
      one' w r s r-s held = elim (Bytes-cases key (key_of xids (prefix s) w)) [
        | yes e ↦ absurd (held (empty_beside r s w r-s e))
        | no s-key ↦ elim (Bytes-cases key (key_of xids (prefix r) w)) [
          | yes e ↦ empty_beside s r w (λ k. r-s (sym k)) e
          | no r-key ↦ others _ s-key ∙ one w r s r-s (λ k. held (others _ r-key ∙ k))
        ]
      ]
