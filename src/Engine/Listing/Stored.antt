-- ===== src/Engine/Listing/Stored.antt =====
-- pkg/engine/engine.go and pkg/task/storage.go: what Tasks lists, by what the database holds.
use testground.Base.{
  ℕ, suc, ◌≤◌, ◌<◌, ◌≡◌, ◌≢◌, ◌↔◌, ◌⊎◌, refl, sym, ap, ◌∙◌, subst, inl, inr, true, none, some, List,
  [], ◌∷◌, All, map,
}
use testground.Base.Int.{pos}
use testground.Base.Errors.{Fallible, ok}
use testground.Task.{Task, State, Time, unix}
use testground.Task.Bytes.{Bytes, HasTenDigits}
use testground.Task.Encoding.{Blob, unmarshal}
use testground.Task.Errors.{TaskError}
use testground.Task.Database.{LevelDb, XidLib, Elem}
use testground.Task.Keys.{Phase, prefix, key_of-same}
use testground.Task.Storage.{key_of}
use testground.Task.Storage.Ranges.{state_of, filter_complete, filter_sound}
use testground.Engine.Listing.{
  TasksFilters, is_listed, or_time, found, list_states, tasks, IsFound, list_next, list_stop,
  result_of, tasks-IsFound,
}

module _ (level : LevelDb) (xids : XidLib) (filters : TasksFilters) (now : Time)
    (d : level.Db) where
  open level use {contents}
  open xids use {Xid, seconds}

  -- Filter answers for a state
  abbrev IsAnswered : State → Type 0
  IsAnswered state = (tsks : List Task) × (found level xids filters now d state ≡ ok tsks)

  -- Tasks returns tasks only where Filter answers for each state.
  list_states-IsAnswered :
      (states : List State) (res out : List Task) (readers left : ℕ)
      → ◌≡◌ {A = Fallible TaskError (List Task) × ℕ}
          (list_states level xids filters now d states res readers)
          (ok out, left)
      → All IsAnswered states
  list_states-IsAnswered [] res out readers left h = tt
  list_states-IsAnswered (state ∷ states) res out readers left h =
      elim (result_of level xids filters now (found level xids filters now d state)) [
        | inl (tsks, answered) ↦ (
          (tsks, answered),
          list_states-IsAnswered states _ out readers left
              (sym (list_next level xids filters now d state states res tsks readers answered) ∙ h),
        )
        | inr failed ↦
            let stopped =
              list_stop level xids filters now d state states res readers _ refl failed in
            absurd
              (failed out (ap (λ (x : Fallible TaskError (List Task) × ℕ). x.0) (sym stopped ∙ h)))
      ]

  module _ (m n : ℕ) (from : unix (or_time 0 filters.before) ≡ pos m)
      (until : unix (or_time now filters.after) ≡ pos n) (hm : HasTenDigits m) (hn : HasTenDigits n)
      (keyed : (k : Bytes)
        → contents d k ≢ none
        → (q : Phase) × (u : Xid) × (k ≡ key_of xids (prefix q) u) × HasTenDigits (seconds u)) where
    -- the database holds the task under one of the phases, with its xid's second in the window
    abbrev pub IsStored : List Phase → Task → Type 0
    IsStored phases t =
        (p : Phase) × (u : Xid) × (b : Blob) × Elem p phases
        × (contents d (key_of xids (prefix p) u) ≡ some b)
        × (unmarshal b ≡ ok t)
        × (m ≤ seconds u)
        × (seconds u < n)

    IsFound-IsStored :
        (phases : List Phase) (t : Task)
        → IsFound level xids filters now d (map state_of phases) t
        → IsStored phases t
    IsFound-IsStored [] t h = elim h [ ]
    IsFound-IsStored (p ∷ phases) t (inl (tsks, answered, m_t)) =
        let (u, b, held, decoded, late, early) =
          filter_sound level xids p _ _ m n d tsks from until hm hn answered keyed t m_t in
        (p, u, b, inl refl, held, decoded, late, early)
    IsFound-IsStored (p ∷ phases) t (inr h) =
        let (q, u, b, m_q, held, decoded, late, early) = IsFound-IsStored phases t h in
        (q, u, b, inr m_q, held, decoded, late, early)

    ten_digits :
        (p : Phase) (u : Xid)
        → contents d (key_of xids (prefix p) u) ≢ none
        → HasTenDigits (seconds u)
    ten_digits p u held =
        let (q, v, same, hv) = keyed (key_of xids (prefix p) u) held in
        subst (λ (x : Xid). HasTenDigits (seconds x)) (sym (key_of-same xids p q u v same).1) hv

    IsStored-IsFound :
        (phases : List Phase) (t : Task)
        → All IsAnswered (map state_of phases)
        → IsStored phases t
        → IsFound level xids filters now d (map state_of phases) t
    IsStored-IsFound [] t h (p, u, b, m_p, held, decoded, late, early) = elim m_p [ ]
    IsStored-IsFound (q ∷ phases) t (first, more) (p, u, b, inr m_p, held, decoded, late, early) =
        inr (IsStored-IsFound phases t more (p, u, b, m_p, held, decoded, late, early))
    IsStored-IsFound (q ∷ phases) t ((tsks, answered), more)
          (p, u, b, inl same, held, decoded, late, early) =
        let held' : contents d (key_of xids (prefix q) u) ≡ some b =
          ap (λ (x : Phase). contents d (key_of xids (prefix x) u)) (sym same) ∙ held in
        let (t', decoded', in_tsks) =
          filter_complete level xids q _ _ m n d tsks from until hm hn answered u b held'
            (ten_digits q u (λ e. cc (e, held'))) late early in
        inl (tsks, answered, subst (λ (x : Task). Elem x tsks) (same_task decoded' decoded) in_tsks)
      where
        same_task : {t' : Task} → unmarshal b ≡ ok t' → unmarshal b ≡ ok t → t' ≡ t
        same_task h k = cc (h, k)

    -- Tasks, over a database of task keys, with the times of the window and of the ids written with
    -- ten digits and an iterator that does not fail, and asked for the states scheduled, processing
    -- and complete at most, ends in one of two ways. It returns the tasks that are stored under
    -- those states with their id's second from `before` on and earlier than `after`, and that match
    -- the filters, each of them and nothing else, and the lock has as many readers as before. Or
    -- Filter fails, and Tasks returns that while it still holds the lock.
    pub tasks_correct :
        (phases : List Phase) (readers : ℕ)
        → filters.states ≡ map state_of phases
        → ((out : List Task) × (◌≡◌ {A = Fallible TaskError (List Task) × ℕ}
              (tasks level xids filters now d readers)
              (ok out, readers))
            × ((t : Task) → Elem t out ↔ (IsStored phases t × (is_listed filters t ≡ true))))
          ⊎ ((r : Fallible TaskError (List Task)) × ((tsks : List Task) → ¬ (r ≡ ok tsks))
              × (◌≡◌ {A = Fallible TaskError (List Task) × ℕ}
                  (tasks level xids filters now d readers)
                  (r, suc readers)))
    tasks_correct phases readers wanted = elim (tasks-IsFound level xids filters now d readers) [
      | inr failed ↦ inr failed
      | inl (out, ran, members) ↦
          let answers =
            subst (λ (ss : List State). All IsAnswered ss) wanted (answered_all out ran) in
          inl (
            out,
            ran,
            λ t. (
              λ k.
                  let (found_t, listed) = (members t).0 k in
                  (
                    IsFound-IsStored phases t (
                        subst (λ (ss : List State). IsFound level xids filters now d ss t) wanted
                          found_t),
                    listed,
                  ),
              λ (stored, listed). (members t).1 (
                subst (λ (ss : List State). IsFound level xids filters now d ss t) (sym wanted)
                    (IsStored-IsFound phases t answers stored),
                listed,
              ),
            ),
          )
    ]
      where
        answered_all :
            (out : List Task)
            → ◌≡◌ {A = Fallible TaskError (List Task) × ℕ}
                (tasks level xids filters now d readers)
                (ok out, readers)
            → All IsAnswered filters.states
        answered_all out ran =
            list_states-IsAnswered filters.states [] out (suc readers) readers (tasks-eq ∙ ran)
          where
            tasks-eq :
                ◌≡◌ {A = Fallible TaskError (List Task) × ℕ}
                  (list_states level xids filters now d filters.states [] (suc readers))
                  (tasks level xids filters now d readers)
            tasks-eq = unfold tasks in refl
