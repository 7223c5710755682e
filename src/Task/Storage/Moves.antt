-- ===== src/Task/Storage/Moves.antt =====
-- The transaction of changePrefix of pkg/task/storage.go, by ProcessTask and ArchiveTask: what it
-- changes in the database, and what is left where a call of the database fails.
use testground.Base.{
  ◌≡◌, ◌≢◌, refl, sym, ap, ◌∙◌, inl, inr, String, Option, none, some, Option-cases,
}
use testground.Base.Errors.{Fallible, ok, err, panic, >>=-eq-ok}
use testground.Task.Bytes.{Bytes}
use testground.Task.Encoding.{Blob}
use testground.Task.Errors.{TaskError, bad_key}
use testground.Task.Database.{LevelDb, XidLib}
use testground.Task.Keys.{Phase, prefix, key_of-ne}
use testground.Task.Storage.{lift_db, or_error, key_of, move_key, committed, change_prefix}

pub lift_db-eq-ok {ℓ} : {A : Type ℓ} (r : Fallible String A) {a : A} → lift_db r ≡ ok a → r ≡ ok a
lift_db-eq-ok (ok b) h = cc
lift_db-eq-ok (err s) h = cc
lift_db-eq-ok panic h = cc

pub or_error-eq-ok {ℓ} :
    {A : Type ℓ} (e : TaskError) (o : Option A) {a : A} → or_error e o ≡ ok a → o ≡ some a
or_error-eq-ok e none h = cc
or_error-eq-ok e (some b) h = cc

module _ (level : LevelDb) (xids : XidLib) where
  open level use {Db, Tx, contents}
  open xids use {Xid, from_string}

  -- `d'` is `d` with the value of `old` moved to `new`
  pub record Moved (new old : Bytes) (d d' : Db) : Type 0 where
    pub value : Blob
    pub held : contents d old ≡ some value
    pub arrived : contents d' new ≡ some value
    pub left : contents d' old ≡ none
    pub others : (j : Bytes) → j ≢ new → j ≢ old → contents d' j ≡ contents d j

  -- what the transaction holds before its Commit
  move_key-pending :
      (new old : Bytes) (d : Db) (t : Tx)
      → new ≢ old
      → move_key level xids new old d ≡ ok t
      → (value : Blob) × (contents d old ≡ some value)
        × (level.pending t new ≡ some value)
        × (level.pending t old ≡ none)
        × ((j : Bytes) → j ≢ new → j ≢ old → level.pending t j ≡ contents d j)
  move_key-pending new old d t₀ apart h =
      let (t, opened, h₁) = >>=-eq-ok (lift_db (level.open_transaction d)) _ h in
      let (found, got, h₂) = >>=-eq-ok (lift_db (level.tx_get t old)) _ h₁ in
      let (val, present, h₃) = >>=-eq-ok (or_error _ found) _ h₂ in
      let (t', put_it, h₄) = >>=-eq-ok (lift_db (level.tx_put new val t)) _ h₃ in
      let e₀ = level.open_law d t (lift_db-eq-ok _ opened) in
      let e₁ = level.tx_get_law t old found (lift_db-eq-ok _ got) in
      let p = lift_db-eq-ok _ put_it in
      let q = lift_db-eq-ok _ h₄ in
      (
        val,
        sym (e₀ old) ∙ e₁ ∙ or_error-eq-ok _ found present,
        level.tx_delete_other old t' t₀ q new (λ e. apart (sym e))
            ∙ level.tx_put_self new val t t' p,
        level.tx_delete_self old t' t₀ q,
        λ j j-new j-old.
            level.tx_delete_other old t' t₀ q j (λ e. j-old (sym e))
            ∙ level.tx_put_other new val t t' p j (λ e. j-new (sym e))
            ∙ e₀ j,
      )

  -- the key that is moved holds a value where the transaction gets to its Commit
  move_key-held :
      (new old : Bytes) (d : Db) (t : Tx)
      → move_key level xids new old d ≡ ok t
      → contents d old ≢ none
  move_key-held new old d t₀ h none_held =
      let (t, opened, h₁) = >>=-eq-ok (lift_db (level.open_transaction d)) _ h in
      let (found, got, h₂) = >>=-eq-ok (lift_db (level.tx_get t old)) _ h₁ in
      let (val, present, h₃) = >>=-eq-ok (or_error _ found) _ h₂ in
      let e₀ = level.open_law d t (lift_db-eq-ok _ opened) old in
      let e₁ = level.tx_get_law t old found (lift_db-eq-ok _ got) in
      let e₂ = or_error-eq-ok _ found present in cc (e₀, e₁, e₂, none_held)

  committed-Moved :
      (new old : Bytes) (d d' : Db) (r : Fallible TaskError Tx)
      → new ≢ old
      → move_key level xids new old d ≡ r
      → committed level xids r d ≡ (ok tt, d')
      → Moved new old d d'
  committed-Moved new old d d' (ok t) apart e h =
      let (value, held, arrived, left, others) = move_key-pending new old d t apart e in
      let fine : (level.commit t d).0 ≡ ok tt =
        lift_db-eq-ok _ (ap (λ (x : Fallible TaskError (Unit {0}) × Db). x.0) h) in
      let after : (level.commit t d).1 ≡ d' =
        ap (λ (x : Fallible TaskError (Unit {0}) × Db). x.1) h in
      let c : (j : Bytes) → contents d' j ≡ level.pending t j =
        λ j. ap (λ (x : Db). contents x j) (sym after) ∙ level.commit_law t d fine j in
      record {
        value = value;
        held = held;
        arrived = c new ∙ arrived;
        left = c old ∙ left;
        others = λ j j-new j-old. c j ∙ others j j-new j-old;
      }
  committed-Moved new old d d' (err x) apart e h = cc
  committed-Moved new old d d' panic apart e h = cc

  -- a step that fails leaves what every key holds
  committed-unmoved :
      (d : Db) (r : Fallible TaskError Tx)
      → (committed level xids r d).0 ≢ ok tt
      → (j : Bytes) → contents (committed level xids r d).1 j ≡ contents d j
  committed-unmoved d (ok t) h j = level.commit_failed t d (λ e. h (rw e refl)) j
  committed-unmoved d (err x) h j = refl
  committed-unmoved d panic h j = refl

  change_prefix-eq :
      (p q : Bytes) (id : String) (u : Xid) (d : Db)
      → from_string id ≡ some u
      → change_prefix level xids p q id d
        ≡ committed level xids (move_key level xids (key_of xids p u) (key_of xids q u) d) d
  unfolding change_prefix
  change_prefix-eq p q id u d e = rw e

  change_prefix-bad_key :
      (p q : Bytes) (id : String) (d : Db)
      → from_string id ≡ none
      → change_prefix level xids p q id d ≡ (err bad_key, d)
  unfolding change_prefix
  change_prefix-bad_key p q id d e = rw e

  -- changePrefix between two phases, when it succeeds, moves the task's value from the one key to
  -- the other, and every other key keeps what it has.
  pub change_prefix-Moved :
      (p q : Phase) (id : String) (d d' : Db)
      → p ≢ q
      → change_prefix level xids (prefix p) (prefix q) id d ≡ (ok tt, d')
      → (u : Xid) × (from_string id ≡ some u)
        × Moved (key_of xids (prefix p) u) (key_of xids (prefix q) u) d d'
  change_prefix-Moved p q id d d' apart h = elim (Option-cases (from_string id)) [
    | inl missing ↦ cc (change_prefix-bad_key (prefix p) (prefix q) id d missing)
    | inr (u, known) ↦ (
      u,
      known,
      committed-Moved _ _ d d' _ (key_of-ne xids p q u u apart) refl
          (sym (change_prefix-eq (prefix p) (prefix q) id u d known) ∙ h),
    )
  ]

  -- changePrefix that does not succeed leaves what every key holds, whatever call of the database
  -- failed.
  pub change_prefix-unmoved :
      (p q : Bytes) (id : String) (d : Db)
      → (change_prefix level xids p q id d).0 ≢ ok tt
      → (j : Bytes) → contents (change_prefix level xids p q id d).1 j ≡ contents d j
  change_prefix-unmoved p q id d = elim (Option-cases (from_string id)) [
    | inl missing ↦ rw (change_prefix-bad_key p q id d missing) (λ h j. refl)
    | inr (u, known) ↦ rw (change_prefix-eq p q id u d known) (committed-unmoved d _)
  ]

  committed-absent :
      (new old : Bytes) (d : Db) (r : Fallible TaskError Tx)
      → move_key level xids new old d ≡ r
      → contents d old ≡ none
      → (committed level xids r d).1 ≡ d
  committed-absent new old d (ok t) e h = absurd (move_key-held new old d t e h)
  committed-absent new old d (err x) e h = refl
  committed-absent new old d panic e h = refl

  -- changePrefix of a task that its source does not hold ends before the Commit, and leaves the
  -- database itself as it was.
  pub change_prefix-absent :
      (p q : Bytes) (id : String) (d : Db)
      → ((u : Xid) → from_string id ≡ some u → contents d (key_of xids q u) ≡ none)
      → (change_prefix level xids p q id d).1 ≡ d
  change_prefix-absent p q id d absent = elim (Option-cases (from_string id)) [
    | inl missing ↦ rw (change_prefix-bad_key p q id d missing) refl
    | inr (u, known) ↦
        rw (change_prefix-eq p q id u d known) (committed-absent _ _ d _ refl (absent u known))
  ]

  -- No task is stored under two phases.
  abbrev pub IsOnePhase : Db → Type 0
  IsOnePhase d =
      (u : Xid) (p q : Phase)
      → p ≢ q
      → contents d (key_of xids (prefix p) u) ≢ none
      → contents d (key_of xids (prefix q) u) ≡ none
