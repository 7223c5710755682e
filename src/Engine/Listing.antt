-- ===== src/Engine/Listing.antt =====
-- pkg/engine/engine.go: Tasks, which lists the stored tasks that match the filters. The state is
-- the number of readers that hold the lock of the signals.
pub mod Stored
use testground.Base.{
  ℕ, suc, ◌-◌, ◌≡◌, ◌↔◌, refl, ap, ◌∙◌, subst, ◌⊎◌, inl, inr, String, Bool, true, false, not, ◌||◌,
  ◌&&◌, Option, none, some, List, [], ◌∷◌, ◌++◌, str_eq, if◌then◌else◌, arith, Bool-cases,
}
use testground.Base.Errors.{Fallible, ok, err, panic}
use testground.Task.{Task, TaskType, State, Time}
use testground.Task.Errors.{TaskError}
use testground.Task.Database.{LevelDb, XidLib, Elem}
use testground.Task.Storage.{filter}

-- api.TasksFilters; a nil pointer is `none`
pub record TasksFilters : Type 0 where
  pub types : List TaskType
  pub states : List State
  pub after : Option Time
  pub before : Option Time
  pub test_plan : String
  pub test_case : String

abbrev pub eq_type : TaskType → TaskType → Bool
eq_type TaskType.build TaskType.build = true
eq_type TaskType.run TaskType.run = true
eq_type (TaskType.other a) (TaskType.other b) = str_eq a b
eq_type _ _ = false

-- the loop over the types
abbrev pub has_type : List TaskType → TaskType → Bool
has_type [] k = false
has_type (tp ∷ tps) k = eq_type k tp || has_type tps k

-- `filter != "" && value != filter`
abbrev pub skips : String → String → Bool
skips filter_by value = not (str_eq filter_by "") && not (str_eq value filter_by)

-- what the loop over the tasks of one state keeps
abbrev pub is_listed : TasksFilters → Task → Bool
is_listed filters tsk =
    not (skips filters.test_plan tsk.plan)
    && (not (skips filters.test_case tsk.case) && has_type filters.types tsk.type)

-- that loop: each kept task goes before the ones that were kept before
unfoldable pub collect : TasksFilters → List Task → List Task → List Task
collect filters [] ires = ires
collect filters (tsk ∷ tsks) ires =
    collect filters tsks (if is_listed filters tsk then tsk ∷ ires else ires)

abbrev pub or_time : Time → Option Time → Time
or_time default none = default
or_time default (some t) = t

module _ (level : LevelDb) (xids : XidLib) where
  open level use {Db}

  -- what the database answers for one state: `before` is the start of the window and `after` its
  -- end
  abbrev pub found : TasksFilters → Time → Db → State → Fallible TaskError (List Task)
  found filters now d state =
      filter level xids state (or_time 0 filters.before) (or_time now filters.after) d

  -- the loop over the states; an error returns at once, and the lock stays held
  abbrev pub with_found :
      Fallible TaskError (List Task)
      → (List Task → Fallible TaskError (List Task) × ℕ)
      → ℕ
      → Fallible TaskError (List Task) × ℕ
  with_found (ok tsks) rest readers = rest tsks
  with_found (err e) rest readers = (err e, readers)
  with_found panic rest readers = (panic, readers)

  unfoldable pub list_states :
      TasksFilters → Time → Db → List State → List Task → ℕ → Fallible TaskError (List Task) × ℕ
  list_states filters now d [] res readers = (ok res, readers - 1)
  list_states filters now d (state ∷ states) res readers =
      with_found (found filters now d state)
        (λ tsks. list_states filters now d states (res ++ collect filters tsks []) readers) readers

  -- Tasks
  unfoldable pub tasks : TasksFilters → Time → Db → ℕ → Fallible TaskError (List Task) × ℕ
  unfolding list_states
  tasks filters now d readers = list_states filters now d filters.states [] (suc readers)

-- The loop over the tasks of one state keeps exactly those that match.
collect-Elem :
    (filters : TasksFilters) (tsks ires : List Task) (t : Task)
    → Elem t (collect filters tsks ires)
      ↔ (Elem t ires ⊎ (Elem t tsks × (is_listed filters t ≡ true)))
unfolding collect
collect-Elem filters [] ires t = (inl, elim [ inl m ↦ m | inr k ↦ elim k.0 [ ] ])
collect-Elem filters (tsk ∷ tsks) ires t = elim (Bool-cases (is_listed filters tsk)) [
  | inl kept ↦
      let rest = collect-Elem filters tsks (tsk ∷ ires) t in
      rw kept (
        λ m. elim (rest.0 m) [
          | inl (inl e) ↦ inr (inl e, rw e kept)
          | inl (inr r) ↦ inl r
          | inr (m', k) ↦ inr (inr m', k)
        ],
        λ m. rest.1 (elim m [
          | inl r ↦ inl (inr r)
          | inr (inl e, k) ↦ inl (inl e)
          | inr (inr m', k) ↦ inr (m', k)
        ]),
      )
  | inr skipped ↦
      let rest = collect-Elem filters tsks ires t in
      rw skipped (
        λ m. elim (rest.0 m) [ inl r ↦ inl r | inr (m', k) ↦ inr (inr m', k) ],
        λ m. rest.1 (elim m [
          | inl r ↦ inl r
          | inr (inl e, k) ↦ absurd (clash e k skipped)
          | inr (inr m', k) ↦ inr (m', k)
        ]),
      )
]
  where
    clash : t ≡ tsk → is_listed filters t ≡ true → is_listed filters tsk ≡ false → ⊥
    clash e k skipped = cc (k, skipped, ap (is_listed filters) e)

append-Elem : (xs ys : List Task) (t : Task) → Elem t (xs ++ ys) ↔ (Elem t xs ⊎ Elem t ys)
append-Elem [] ys t = (inr, elim [ inl m ↦ elim m [ ] | inr m ↦ m ])
append-Elem (x ∷ xs) ys t =
    let rest = append-Elem xs ys t in
    (
      elim [
        | inl e ↦ inl (inl e)
        | inr m ↦ elim (rest.0 m) [ inl a ↦ inl (inr a) | inr b ↦ inr b ]
      ],
      elim [
        | inl (inl e) ↦ inl e
        | inl (inr a) ↦ inr (rest.1 (inl a))
        | inr b ↦ inr (rest.1 (inr b))
      ],
    )

released :
    (out : List Task) (readers : ℕ)
    → ◌≡◌ {A = Fallible TaskError (List Task) × ℕ} (ok out, suc readers - 1) (ok out, readers)
released out readers = cc (less readers)
  where
    less : (n : ℕ) → suc n - 1 ≡ n
    less n = omega arith

module _ (level : LevelDb) (xids : XidLib) (filters : TasksFilters) (now : Time) where
  open level use {Db}

  -- the database answers for one of the states with tasks that have this one among them
  abbrev pub IsFound : Db → List State → Task → Type 0
  IsFound d [] t = ⊥
  IsFound d (state ∷ states) t =
      ((tsks : List Task) × (found level xids filters now d state ≡ ok tsks) × Elem t tsks)
      ⊎ IsFound d states t

  pub list_next :
      (d : Db) (state : State) (states : List State) (res tsks : List Task) (readers : ℕ)
      → found level xids filters now d state ≡ ok tsks
      → list_states level xids filters now d (state ∷ states) res readers
        ≡ list_states level xids filters now d states (res ++ collect filters tsks []) readers
  unfolding list_states
  list_next d state states res tsks readers h = rw h refl

  pub list_stop :
      (d : Db) (state : State) (states : List State) (res : List Task) (readers : ℕ)
      (r : Fallible TaskError (List Task))
      → found level xids filters now d state ≡ r
      → ((tsks : List Task) → ¬ (r ≡ ok tsks))
      → list_states level xids filters now d (state ∷ states) res readers ≡ (r, readers)
  unfolding list_states
  list_stop d state states res readers (ok tsks) h failed = absurd (failed tsks refl)
  list_stop d state states res readers (err e) h failed = rw h refl
  list_stop d state states res readers panic h failed = rw h refl

  -- how the loop ends
  abbrev Listed : Db → List State → List Task → ℕ → Type 0
  Listed d states res readers =
      ((out : List Task) × (list_states level xids filters now d states res readers
          ≡ (ok out, readers - 1))
        × ((t : Task)
            → Elem t out ↔ (Elem t res ⊎ (IsFound d states t × (is_listed filters t ≡ true)))))
      ⊎ ((r : Fallible TaskError (List Task)) × ((tsks : List Task) → ¬ (r ≡ ok tsks))
          × (list_states level xids filters now d states res readers ≡ (r, readers)))

  pub result_of :
      (r : Fallible TaskError (List Task))
      → ((tsks : List Task) × (r ≡ ok tsks)) ⊎ ((tsks : List Task) → ¬ (r ≡ ok tsks))
  result_of (ok tsks) = inl (tsks, refl)
  result_of (err e) = inr (λ tsks h. cc)
  result_of panic = inr (λ tsks h. cc)

  -- one more state
  members-next :
      (d : Db) (state : State) (states : List State) (res tsks out : List Task) (t : Task)
      → found level xids filters now d state ≡ ok tsks
      → (Elem t out ↔ (
          Elem t (res ++ collect filters tsks [])
          ⊎ (IsFound d states t × (is_listed filters t ≡ true))))
      → (Elem t out ↔ (Elem t res ⊎ (IsFound d (state ∷ states) t × (is_listed filters t ≡ true))))
  members-next d state states res tsks out t h members =
      let app = append-Elem res (collect filters tsks []) t in
      let col = collect-Elem filters tsks [] t in
      (
        λ m. elim (members.0 m) [
          | inr (f, k) ↦ inr (inr f, k)
          | inl a ↦ elim (app.0 a) [
            | inl r ↦ inl r
            | inr c ↦ elim (col.0 c) [
              | inl e ↦ elim e [ ]
              | inr (in_tsks, k) ↦ inr (inl (tsks, h, in_tsks), k)
            ]
          ]
        ],
        elim [
          | inl r ↦ members.1 (inl (app.1 (inl r)))
          | inr (inr f, k) ↦ members.1 (inr (f, k))
          | inr (inl (tsks', h', in_tsks), k) ↦
              let same : tsks' ≡ tsks = same_tasks h' h in
              members.1 (inl (app.1 (inr (col.1 (inr (subst (Elem t) same in_tsks, k))))))
        ],
      )
    where
      same_tasks :
          {tsks' : List Task}
          → found level xids filters now d state ≡ ok tsks'
          → found level xids filters now d state ≡ ok tsks
          → tsks' ≡ tsks
      same_tasks h' h = cc (h', h)

  list_states-Listed :
      (d : Db) (states : List State) (res : List Task) (readers : ℕ) → Listed d states res readers
  list_states-Listed d [] res readers =
      inl (res, unfold list_states in refl, λ t. (inl, elim [ inl m ↦ m | inr k ↦ elim k.0 [ ] ]))
  list_states-Listed d (state ∷ states) res readers =
      elim (result_of (found level xids filters now d state)) [
        | inr failed ↦ inr (
          found level xids filters now d state,
          failed,
          list_stop d state states res readers _ refl failed,
        )
        | inl (tsks, h) ↦
            elim (list_states-Listed d states (res ++ collect filters tsks []) readers) [
              | inr (r, failed, ran) ↦
                  inr (r, failed, list_next d state states res tsks readers h ∙ ran)
              | inl (out, ran, members) ↦ inl (
                out,
                list_next d state states res tsks readers h ∙ ran,
                λ t. members-next d state states res tsks out t h (members t),
              )
            ]
      ]

  -- Tasks either returns the tasks that Filter answers for the wanted states and that match the
  -- filters, each of them and nothing else, and the lock has as many readers as before; or Filter
  -- fails for one of the states, and Tasks returns while it still holds the lock.
  pub tasks-IsFound :
      (d : Db) (readers : ℕ)
      → ((out : List Task) × (tasks level xids filters now d readers ≡ (ok out, readers))
          × ((t : Task) → Elem t out ↔ (IsFound d filters.states t × (is_listed filters t ≡ true))))
        ⊎ ((r : Fallible TaskError (List Task)) × ((tsks : List Task) → ¬ (r ≡ ok tsks))
            × (tasks level xids filters now d readers ≡ (r, suc readers)))
  unfolding tasks
  tasks-IsFound d readers = elim (list_states-Listed d filters.states [] (suc readers)) [
    | inr failed ↦ inr failed
    | inl (out, ran, members) ↦ inl (
      out,
      ran ∙ released out readers,
      λ t. (
        λ m. elim ((members t).0 m) [ inl k ↦ elim k [ ] | inr k ↦ k ],
        λ k. (members t).1 (inr k),
      ),
    )
  ]
