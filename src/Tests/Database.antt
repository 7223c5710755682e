-- ===== src/Tests/Database.antt =====
-- A database and an xid library that keep the laws of their interfaces: the database is the list
-- of what was put, the last first, and never fails.
use testground.Base.{
  ◌+◌, ◌≡◌, ◌≢◌, ◌↔◌, ◌⊎◌, refl, sym, ap, ◌∙◌, inl, inr, String, Bool, true, false, not, ◌&&◌,
  Option, none, some, List, [], ◌∷◌, arith, if◌then◌else◌, Bool-cases, ◌==◌, length,
}
use testground.Base.Errors.{Fallible, ok}
use testground.Task.Bytes.{Bytes, codes, before, bytes_eq, bytes_eq_iff, bytes_eq_self}
use testground.Task.Encoding.{Blob}
use testground.Task.Database.{Elem, LevelDb, XidLib}

abbrev pub Entries : Type 0
Entries = List (Bytes × Blob)

unfoldable pub find : Entries → Bytes → Option Blob
find [] k = none
find ((j, b) ∷ d) k = if bytes_eq j k then some b else find d k

unfoldable pub without : Bytes → Entries → Entries
without k [] = []
without k ((j, b) ∷ d) = let rest = without k d in if bytes_eq j k then rest else (j, b) ∷ rest

pub find-same : (k : Bytes) (b : Blob) (d : Entries) → find ((k, b) ∷ d) k ≡ some b
unfolding find
find-same k b d = rw (bytes_eq_self k) refl

pub find-other : (k j : Bytes) (b : Blob) (d : Entries) → k ≢ j → find ((k, b) ∷ d) j ≡ find d j
unfolding find
find-other k j b d h = ground (arith, bytes_eq_iff k j)

pub find-without_self : (k : Bytes) (d : Entries) → find (without k d) k ≡ none
unfolding find without
find-without_self k [] = refl
find-without_self k ((j, b) ∷ d) = ground (arith, find-without_self k d)

pub find-without_other : (k j : Bytes) (d : Entries) → k ≢ j → find (without k d) j ≡ find d j
unfolding find without
find-without_other k j [] h = refl
find-without_other k j ((i, b) ∷ d) h =
    ground (arith, find-without_other k j d h, bytes_eq_iff i k, bytes_eq_iff i j)

-- the entry of a key in the range, with what the key holds now
emit : Bytes → Bool → Option Blob → Entries → Entries
emit k true (some b) rest = (k, b) ∷ rest
emit k true none rest = rest
emit k false o rest = rest

unfoldable pub select : (Bytes → Bool) → Entries → Entries → Entries
unfolding emit
select within all [] = []
select within all ((k, b) ∷ d) = emit k (within k) (find all k) (select within all d)

emitted :
    (j : Bytes) (t : Bool) (o : Option Blob) (rest : Entries) (k : Bytes) (b : Blob)
    → Elem (k, b) (emit j t o rest)
    → ((k ≡ j) × (t ≡ true) × (o ≡ some b)) ⊎ Elem (k, b) rest
unfolding emit
emitted j true (some c) rest k b (inl e) =
    inl (ap (λ (x : Bytes × Blob). x.0) e, refl, ap some (sym (ap (λ (x : Bytes × Blob). x.1) e)))
emitted j true (some c) rest k b (inr m) = inr m
emitted j true none rest k b m = inr m
emitted j false o rest k b m = inr m

emit_head :
    (j : Bytes) (t : Bool) (o : Option Blob) (rest : Entries) (b : Blob)
    → t ≡ true
    → o ≡ some b
    → Elem (j, b) (emit j t o rest)
unfolding emit
emit_head j true (some c) rest b h e = inl (cc)
emit_head j true none rest b h e = cc
emit_head j false o rest b h e = cc

emit_tail :
    (j : Bytes) (t : Bool) (o : Option Blob) (rest : Entries) (x : Bytes × Blob)
    → Elem x rest
    → Elem x (emit j t o rest)
unfolding emit
emit_tail j true (some c) rest x m = inr m
emit_tail j true none rest x m = m
emit_tail j false o rest x m = m

skip :
    (j k : Bytes) (c : Blob) (d : Entries) → bytes_eq j k ≡ false → find ((j, c) ∷ d) k ≡ find d k
unfolding find
skip j k c d h = rw h refl

select_sound :
    (within : Bytes → Bool) (all d : Entries) (k : Bytes) (b : Blob)
    → Elem (k, b) (select within all d)
    → (find all k ≡ some b) × (within k ≡ true)
unfolding select
select_sound within all [] k b m = elim m [ ]
select_sound within all ((j, c) ∷ d) k b m =
    elim (emitted j (within j) (find all j) (select within all d) k b m) [
      | inl (e, inside, at) ↦ rw e (at, inside)
      | inr r ↦ select_sound within all d k b r
    ]

select_complete :
    (within : Bytes → Bool) (all d : Entries) (k : Bytes) (b : Blob)
    → find all k ≡ some b
    → within k ≡ true
    → find d k ≢ none
    → Elem (k, b) (select within all d)
unfolding select
select_complete within all [] k b at inside held = absurd (held (unfold find in refl))
select_complete within all ((j, c) ∷ d) k b at inside held = elim (Bool-cases (bytes_eq j k)) [
  | inl same ↦
      let e : j ≡ k = (bytes_eq_iff j k).0 same in
      rw e (emit_head k (within k) (find all k) (select within all d) b inside at)
  | inr apart ↦
      emit_tail j (within j) (find all j) (select within all d) (k, b)
        (select_complete within all d k b at inside
          (λ (h : find d k ≡ none). held (skip j k c d apart ∙ h)))
]

abbrev pub inside_range : Bytes → Bytes → Bytes → Bool
inside_range start limit k = not (before k start) && before k limit

inside_range_iff :
    (start limit k : Bytes)
    → (inside_range start limit k ≡ true) ↔ ((before k start ≡ false) × (before k limit ≡ true))
inside_range_iff start limit k = ground arith

abbrev pub starts_with : Bytes → Bytes → Bool
starts_with [] k = true
starts_with (c ∷ p) [] = false
starts_with (c ∷ p) (e ∷ k) = (c == e) && starts_with p k

pub same_ok : {A : Type 0} {a b : A} → ◌≡◌ {A = Fallible String A} (ok a) (ok b) → a ≡ b
same_ok h = cc

pub select_iff :
    (d : Entries) (start limit k : Bytes) (b : Blob)
    → Elem (k, b) (select (inside_range start limit) d d)
      ↔ ((find d k ≡ some b) × (before k start ≡ false) × (before k limit ≡ true))
select_iff d start limit k b = (
  λ m.
      let (at, inside) = select_sound (inside_range start limit) d d k b m in
      let (late, early) = (inside_range_iff start limit k).0 inside in (at, late, early),
  λ (at, late, early).
      select_complete (inside_range start limit) d d k b at
        ((inside_range_iff start limit k).1 (late, early)) (λ (h : find d k ≡ none). cc (h, at)),
)

abbrev pub test_db : LevelDb
test_db = record {
  Db = Entries;
  Tx = Entries;
  contents = find;
  pending = find;
  get = λ d k. ok (find d k);
  put = λ k b d. (ok tt, (k, b) ∷ d);
  delete = λ k d. (ok tt, without k d);
  open_transaction = λ d. ok d;
  tx_get = λ t k. ok (find t k);
  tx_put = λ k b t. ok ((k, b) ∷ t);
  tx_delete = λ k t. ok (without k t);
  commit = λ t d. (ok tt, t);
  iterate = λ d start limit. select (inside_range start limit) d d;
  iterate_prefix = λ d p. select (starts_with p) d d;
  get_law = λ d k o h. same_ok h;
  put_self = λ k b d h. find-same k b d;
  put_other = λ k b d h j n. find-other k j b d n;
  delete_self = λ k d h. find-without_self k d;
  delete_other = λ k d h j n. find-without_other k j d n;
  open_law = λ d t h j. ap (λ (x : Entries). find x j) (sym (same_ok h));
  tx_get_law = λ t k o h. same_ok h;
  tx_put_self = λ k b t t' h. rw (← same_ok h) (find-same k b t);
  tx_put_other = λ k b t t' h j n. rw (← same_ok h) (find-other k j b t n);
  tx_delete_self = λ k t t' h. rw (← same_ok h) (find-without_self k t);
  tx_delete_other = λ k t t' h j n. rw (← same_ok h) (find-without_other k j t n);
  commit_law = λ t d h j. refl;
  commit_failed = λ t d h. absurd (h refl);
  iterate_law = select_iff;
}

-- an xid is its text, and its time the length of the text after a fixed second
abbrev pub test_xids : XidLib
test_xids = record {
  Xid = Bytes;
  from_string = λ s. if bytes_eq (codes s) [] then none else some (codes s);
  seconds = λ u. 1600000000 + length u;
  to_bytes = λ u. u;
  to_bytes_injective = λ u v h. h;
}
