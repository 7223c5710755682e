-- ===== src/Task/Database.antt =====
-- What pkg/task uses of github.com/syndtr/goleveldb and of github.com/rs/xid, as interfaces: their
-- documented behaviour where a call succeeds. Of the calls that fail only Commit is spoken of: its
-- documentation says that the transaction is then not committed, and may be retried or discarded.
-- An iterator has an error of its own, which rangeIter does not ask for; the interface has the
-- iterator that meets no error, so that what an iterator cut short by one would miss is not
-- modelled.
use testground.Base.{ℕ, ◌≡◌, ◌≢◌, ◌↔◌, String, true, false, Option, none, some, List, [], ◌∷◌, ◌⊎◌}
use testground.Base.Errors.{Fallible, ok}
use testground.Base.Actions.{Action}
use testground.Task.Bytes.{Bytes, before}
use testground.Task.Encoding.{Blob}

abbrev pub Elem : {A : Type 0} → A → List A → Type 0
Elem a [] = ⊥
Elem a (x ∷ xs) = (a ≡ x) ⊎ Elem a xs

pub record LevelDb : Type 1 where
  pub Db : Type 0
  pub Tx : Type 0
  -- what is stored under a key: only the laws speak of it
  pub contents : Db → Bytes → Option Blob
  pub pending : Tx → Bytes → Option Blob
  -- `none` is ErrNotFound
  pub get : Db → Bytes → Fallible String (Option Blob)
  pub put : Bytes → Blob → Action Db String (Unit {0})
  pub delete : Bytes → Action Db String (Unit {0})
  pub open_transaction : Db → Fallible String Tx
  pub tx_get : Tx → Bytes → Fallible String (Option Blob)
  pub tx_put : Bytes → Blob → Tx → Fallible String Tx
  pub tx_delete : Bytes → Tx → Fallible String Tx
  -- a commit that fails leaves the transaction open
  pub commit : Tx → Action Db String (Unit {0})
  -- the entries that an iterator over [start, limit) meets, and one over a prefix
  pub iterate : Db → Bytes → Bytes → List (Bytes × Blob)
  pub iterate_prefix : Db → Bytes → List (Bytes × Blob)
  pub get_law : (d : Db) (k : Bytes) (o : Option Blob) → get d k ≡ ok o → contents d k ≡ o
  pub put_self :
      (k : Bytes) (b : Blob) (d : Db) → (put k b d).0 ≡ ok tt → contents (put k b d).1 k ≡ some b
  pub put_other :
      (k : Bytes) (b : Blob) (d : Db)
      → (put k b d).0 ≡ ok tt
      → (j : Bytes) → k ≢ j
      → contents (put k b d).1 j ≡ contents d j
  pub delete_self : (k : Bytes) (d : Db) → (delete k d).0 ≡ ok tt → contents (delete k d).1 k ≡ none
  pub delete_other :
      (k : Bytes) (d : Db)
      → (delete k d).0 ≡ ok tt
      → (j : Bytes) → k ≢ j
      → contents (delete k d).1 j ≡ contents d j
  pub open_law :
      (d : Db) (t : Tx) → open_transaction d ≡ ok t → (j : Bytes) → pending t j ≡ contents d j
  pub tx_get_law : (t : Tx) (k : Bytes) (o : Option Blob) → tx_get t k ≡ ok o → pending t k ≡ o
  pub tx_put_self :
      (k : Bytes) (b : Blob) (t t' : Tx) → tx_put k b t ≡ ok t' → pending t' k ≡ some b
  pub tx_put_other :
      (k : Bytes) (b : Blob) (t t' : Tx)
      → tx_put k b t ≡ ok t'
      → (j : Bytes) → k ≢ j
      → pending t' j ≡ pending t j
  pub tx_delete_self : (k : Bytes) (t t' : Tx) → tx_delete k t ≡ ok t' → pending t' k ≡ none
  pub tx_delete_other :
      (k : Bytes) (t t' : Tx)
      → tx_delete k t ≡ ok t'
      → (j : Bytes) → k ≢ j
      → pending t' j ≡ pending t j
  pub commit_law :
      (t : Tx) (d : Db)
      → (commit t d).0 ≡ ok tt
      → (j : Bytes) → contents (commit t d).1 j ≡ pending t j
  pub commit_failed :
      (t : Tx) (d : Db)
      → (commit t d).0 ≢ ok tt
      → (j : Bytes) → contents (commit t d).1 j ≡ contents d j
  pub iterate_law :
      (d : Db) (start limit : Bytes) (k : Bytes) (b : Blob)
      → Elem (k, b) (iterate d start limit)
        ↔ ((contents d k ≡ some b) × (before k start ≡ false) × (before k limit ≡ true))

pub record XidLib : Type 1 where
  pub Xid : Type 0
  pub from_string : String → Option Xid
  pub seconds : Xid → ℕ  -- `Time().Unix()`, read from the first four bytes
  pub to_bytes : Xid → Bytes  -- `String()`
  pub to_bytes_injective : (u v : Xid) → to_bytes u ≡ to_bytes v → u ≡ v
