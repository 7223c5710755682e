-- ===== src/Task/Storage/Ranges.antt =====
-- pkg/task/storage.go: what Filter finds, by the text order of the keys. The seconds of two times
-- stand in that order only where they have equally many digits, here ten.
use testground.Base.{
  ℕ, ◌≤◌, ◌<◌, ◌≡◌, ◌≢◌, refl, sym, ap, ◌∙◌, inl, inr, ltb, ltb→lt, lt→ltb, true, false, none, some,
  List, [], ◌∷◌, ◌++◌, arith,
}
use native.Mathlib.Decide.{dec_lt, ℕ_discrete}
use testground.Base.Int.{pos}
use testground.Base.Errors.{ok, >>=-eq-ok}
use testground.Task.{Task, Time, unix, State}
use testground.Task.Bytes.{
  Bytes, format_int, before, before_asym, before-cons_self, HasTenDigits, before-format_int_lt,
  before-format_int_self,
}
use testground.Task.Encoding.{Blob, unmarshal}
use testground.Task.Database.{LevelDb, XidLib, Elem}
use testground.Task.Keys.{Phase, prefix, Phase-discrete}
use testground.Task.Storage.{key_of, decode_all, range_end, filter}

before-append_self : (p a b : Bytes) → before (p ++ a) (p ++ b) ≡ before a b
before-append_self [] a b = refl
before-append_self (c ∷ p) a b = before-cons_self c (p ++ a) (p ++ b) ∙ before-append_self p a b

-- A key's time stands before a bound exactly when it is earlier.
before-time :
    (m n : ℕ) (x : Bytes)
    → HasTenDigits m
    → HasTenDigits n
    → before (format_int (pos m) (95 ∷ x)) (format_int (pos n) []) ≡ ltb m n
unfolding before
before-time m n x hm hn = elim (dec_lt m n) [
  | yes less ↦ before-format_int_lt m n (95 ∷ x) [] hm hn less ∙ sym (lt→ltb m n less)
  | no more ↦ elim (ℕ_discrete m n) [
    | yes same ↦ rw same (before-format_int_self n (95 ∷ x) [] hn ∙ ground arith)
    | no apart ↦
        before_asym (format_int (pos n) []) (format_int (pos m) (95 ∷ x))
          (before-format_int_lt n m [] (95 ∷ x) hn hm (omega arith))
        ∙ ground arith
  ]
]

-- The keys of one phase stand on one side of all of another's.
before-phases :
    (q p : Phase) (x y x' y' : Bytes)
    → q ≢ p
    → before (prefix q ++ x) (prefix p ++ y) ≡ before (prefix q ++ x') (prefix p ++ y')
unfolding before
before-phases Phase.queued Phase.queued x y x' y' h = absurd (h refl)
before-phases Phase.current Phase.current x y x' y' h = absurd (h refl)
before-phases Phase.archived Phase.archived x y x' y' h = absurd (h refl)
before-phases _ _ x y x' y' h = refl

-- the decoding of a non-empty list, taken apart
decode_all-cons :
    (k : Bytes) (b : Blob) (entries : List (Bytes × Blob)) (tasks : List Task)
    → decode_all ((k, b) ∷ entries) ≡ ok tasks
    → (t : Task) × (rest : List Task) × (unmarshal b ≡ ok t)
      × (decode_all entries ≡ ok rest)
      × (tasks ≡ t ∷ rest)
unfolding decode_all
decode_all-cons k b entries tasks h =
    let (t, decoded, h₁) = >>=-eq-ok (unmarshal b) _ h in
    let (rest, more, h₂) = >>=-eq-ok (decode_all entries) _ h₁ in (t, rest, decoded, more, cc)

-- Each entry gives a task of the result, and each task of the result comes from an entry.
decode_All-Elem :
    (entries : List (Bytes × Blob)) (tasks : List Task) (k : Bytes) (b : Blob)
    → decode_all entries ≡ ok tasks
    → Elem (k, b) entries
    → (t : Task) × (unmarshal b ≡ ok t) × Elem t tasks
decode_All-Elem [] tasks k b h m = elim m [ ]
decode_All-Elem ((k', b') ∷ entries) tasks k b h (inl e) =
    let (t, rest, decoded, more, same) = decode_all-cons k' b' entries tasks h in
    let b-b' : b ≡ b' = ap (λ (x : Bytes × Blob). x.1) e in (t, rw b-b' decoded, rw same (inl refl))
decode_All-Elem ((k', b') ∷ entries) tasks k b h (inr m) =
    let (t, rest, decoded, more, same) = decode_all-cons k' b' entries tasks h in
    let (t', decoded', m') = decode_All-Elem entries rest k b more m in
    (t', decoded', rw same (inr m'))

Elem-decode_all :
    (entries : List (Bytes × Blob)) (tasks : List Task) (t : Task)
    → decode_all entries ≡ ok tasks
    → Elem t tasks
    → (k : Bytes) × (b : Blob) × Elem (k, b) entries × (unmarshal b ≡ ok t)
unfolding decode_all
Elem-decode_all [] tasks t h m = let none_left : tasks ≡ [] = cc in absurd (rw none_left at m)
Elem-decode_all ((k', b') ∷ entries) tasks t h m =
    let (s, rest, decoded, more, same) = decode_all-cons k' b' entries tasks h in
    let m' : Elem t (s ∷ rest) = rw same at m in
    elim m' [
      | inl e ↦ (k', b', inl refl, rw e decoded)
      | inr r ↦ let (k, b, r', d) = Elem-decode_all entries rest t more r in (k, b, inr r', d)
    ]

-- the state that Filter looks for in a phase
abbrev pub state_of : Phase → State
state_of Phase.queued = State.scheduled
state_of Phase.current = State.processing
state_of Phase.archived = State.complete

module _ (level : LevelDb) (xids : XidLib) where
  open level use {Db, contents, iterate}
  open xids use {Xid, seconds, to_bytes}

  key-before-bound :
      (p : Phase) (u : Xid) (t : Time) (n : ℕ)
      → unix t ≡ pos n
      → HasTenDigits (seconds u)
      → HasTenDigits n
      → before (key_of xids (prefix p) u) (range_end (prefix p) t) ≡ ltb (seconds u) n
  unfolding key_of
  key-before-bound p u t n e hu hn =
      before-append_self (prefix p) _ _
      ∙ before-cons_self 58 _ _
      ∙ rw e (before-time (seconds u) n (to_bytes u) hu hn)

  key-before-phases :
      (q p : Phase) (u : Xid) (s t : Time)
      → q ≢ p
      → before (key_of xids (prefix q) u) (range_end (prefix p) s)
        ≡ before (key_of xids (prefix q) u) (range_end (prefix p) t)
  unfolding key_of
  key-before-phases q p u s t h = before-phases q p _ _ _ _ h

  filter-eq :
      (p : Phase) (start end : Time) (d : Db)
      → filter level xids (state_of p) start end d
        ≡ decode_all (iterate d (range_end (prefix p) start) (range_end (prefix p) end))
  unfolding filter
  filter-eq Phase.queued start end d = refl
  filter-eq Phase.current start end d = refl
  filter-eq Phase.archived start end d = refl

  module _ (p : Phase) (start end : Time) (m n : ℕ) (d : Db) (tasks : List Task)
      (from : unix start ≡ pos m) (until : unix end ≡ pos n) (hm : HasTenDigits m)
      (hn : HasTenDigits n) (found : filter level xids (state_of p) start end d ≡ ok tasks) where
    entries :
        decode_all (iterate d (range_end (prefix p) start) (range_end (prefix p) end)) ≡ ok tasks
    entries = sym (filter-eq p start end d) ∙ found

    -- Where Filter returns, its iterator meets no error, and the seconds of both ends of the window
    -- are written with ten digits, it misses nothing: a task that is stored in the phase, with its
    -- xid's second written with ten digits, at or after the start and before the end, is in the
    -- result.
    pub filter_complete :
        (u : Xid) (b : Blob)
        → contents d (key_of xids (prefix p) u) ≡ some b
        → HasTenDigits (seconds u)
        → m ≤ seconds u
        → seconds u < n
        → (t : Task) × (unmarshal b ≡ ok t) × Elem t tasks
    filter_complete u b stored hu late early =
        decode_All-Elem _ tasks (key_of xids (prefix p) u) b entries (
          (level.iterate_law d _ _ _ b).1 (
            stored,
            key-before-bound p u start m from hu hm ∙ ground arith,
            key-before-bound p u end n until hu hn ∙ ground arith,
          ))

    -- Where Filter returns, its iterator meets no error, and the seconds of both ends of the window
    -- are written with ten digits, it returns nothing else: over a database whose keys are those of
    -- tasks with their xid's second written with ten digits, each task of the result is stored in
    -- the phase, with its xid's second in the window.
    pub filter_sound :
        ((k : Bytes)
          → contents d k ≢ none
          → (q : Phase) × (u : Xid) × (k ≡ key_of xids (prefix q) u) × HasTenDigits (seconds u))
        → (t : Task) → Elem t tasks
        → (u : Xid) × (b : Blob) × (contents d (key_of xids (prefix p) u) ≡ some b)
          × (unmarshal b ≡ ok t)
          × (m ≤ seconds u)
          × (seconds u < n)
    filter_sound keyed t in_tasks =
        let (k, b, met, decoded) = Elem-decode_all _ tasks t entries in_tasks in
        let (stored, late, early) = (level.iterate_law d _ _ k b).0 met in
        let (q, u, key, hu) = keyed k (λ e. cc (e, stored)) in
        let late' : before (key_of xids (prefix q) u) (range_end (prefix p) start) ≡ false =
          rw (← key) late in
        let early' : before (key_of xids (prefix q) u) (range_end (prefix p) end) ≡ true =
          rw (← key) early in
        elim (Phase-discrete q p) [
          | yes same ↦
              let at_p : key_of xids (prefix q) u ≡ key_of xids (prefix p) u =
                ap (λ (x : Phase). key_of xids (prefix x) u) same in
              let low : ltb (seconds u) m ≡ false =
                sym (key-before-bound p u start m from hu hm) ∙ (rw (← at_p) late') in
              let high : ltb (seconds u) n ≡ true =
                sym (key-before-bound p u end n until hu hn) ∙ (rw (← at_p) early') in
              (
                u,
                b,
                rw (← at_p) (rw (← key) stored),
                decoded,
                ground arith,
                ltb→lt (seconds u) n high,
              )
          | no apart ↦ absurd (cc (late', early', key-before-phases q p u start end apart))
        ]
