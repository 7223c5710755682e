-- ===== src/Engine/Github.antt =====
-- pkg/engine/supervisor.go: postStatusToGithub, up to the request that it sends.
use Prim.Native.String.{◌++◌ as concat}
use testground.Base.{
  ◌≡◌, ◌≢◌, refl, String, true, not, Option, none, some, List, [], ◌∷◌, str_eq, eq_iff, All, ◌==◌,
  if◌then◌else◌, arith, ℕ,
}
use testground.Base.Errors
use testground.Base.Errors.{Fallible, ok, err, panic, >>=-eq-ok}
use testground.Task.{Task, State, Result, state, created_by_ci}
use testground.Task.Payload.{Outcome}
use testground.Task.Bytes.{Bytes, codes}

-- `strings.Split(s, "/")`, on the codes of the text: the pieces between the slashes, at least one
abbrev pub cons_to_first : ℕ → List Bytes → List Bytes
cons_to_first c [] = (c ∷ []) ∷ []
cons_to_first c (p ∷ ps) = (c ∷ p) ∷ ps

unfoldable pub split : Bytes → List Bytes
split [] = [] ∷ []
split (c ∷ s) = let rest = split s in if c == 47 then [] ∷ rest else cons_to_first c rest

-- `ownerrepo[0]` and `ownerrepo[1]`
abbrev pub first_two : List Bytes → Fallible String (Bytes × Bytes)
first_two [] = panic
first_two (p ∷ []) = panic
first_two (p ∷ q ∷ ps) = ok (p, q)

-- the request: where it goes and what it says
pub record StatusPost : Type 0 where
  pub owner : Bytes
  pub repo : Bytes
  pub hash : String
  pub state : String
  pub msg : String
  pub plan : String

-- the text and the state for a finished run
abbrev pub outcome_texts : Outcome → Fallible String (String × String)
outcome_texts Outcome.success = ok ("Testplan run succeeded!", "success")
outcome_texts Outcome.canceled = ok ("Testplan run was canceled!", "failure")
outcome_texts Outcome.failure = ok ("Testplan run failed!", "failure")
outcome_texts Outcome.unknown = err "can't post update to github: task outcome is unknown"

abbrev pub status_texts : State → Outcome → Fallible String (String × String)
status_texts State.processing o = ok ("TaaS is running your plan", "pending")
status_texts State.complete o = outcome_texts o
status_texts State.scheduled o =
    err "can't post update to github: task state is not processing or completed"
status_texts State.canceled o =
    err "can't post update to github: task state is not processing or completed"
status_texts (State.other s) o =
    err "can't post update to github: task state is not processing or completed"

-- `tsk.Result.(*runner.Result)`
abbrev pub runner_outcome : Result → Fallible String Outcome
runner_outcome (Result.runner_result o s) = ok o
runner_outcome Result.no_result = err "can't post to github: task result is not from k8s"
runner_outcome (Result.artifact_paths ps) = err "can't post to github: task result is not from k8s"
runner_outcome (Result.untyped j) = err "can't post to github: task result is not from k8s"

-- what postStatusToGithub does once there is a token, for a task of a CI
unfoldable pub announce : Task → Fallible String (Option StatusPost)
unfolding split state
announce tsk = Errors.◌>>=◌ (first_two (split (codes tsk.created_by.repo))) (λ (owner, repo).
    Errors.◌>>=◌ (runner_outcome tsk.result) (λ outcome. Errors.◌>>=◌ (state tsk) (λ d.
      Errors.◌>>=◌ (status_texts d.state outcome) (λ (msg, status). ok (
        some (record {
          owner = owner;
          repo = repo;
          hash = tsk.created_by.commit;
          state = status;
          msg = msg;
          plan = concat tsk.plan (concat "/" tsk.case);
        }))))))

-- postStatusToGithub: the request, if it gets that far, or nothing to post
unfoldable pub post_status_to_github : String → Task → Fallible String (Option StatusPost)
unfolding announce created_by_ci
post_status_to_github token tsk =
    if str_eq token "" then ok none else if not (created_by_ci tsk) then ok none else announce tsk

announce-runner_result :
    (tsk : Task) (q : Option StatusPost)
    → announce tsk ≡ ok q
    → (o : Outcome) × (runner_outcome tsk.result ≡ ok o)
unfolding announce
announce-runner_result tsk q h =
    let (names, two, h₁) = >>=-eq-ok (first_two (split (codes tsk.created_by.repo))) _ h in
    let (o, typed, h₂) = >>=-eq-ok (runner_outcome tsk.result) _ h₁ in (o, typed)

no_outcome : (r : Result) (o : Outcome) → r ≡ Result.no_result → ¬ (runner_outcome r ≡ ok o)
no_outcome r o h typed = cc (rw h at typed)

announced :
    (token : String) (tsk : Task) (p : StatusPost)
    → post_status_to_github token tsk ≡ ok (some p)
    → announce tsk ≡ ok (some p)
unfolding post_status_to_github
announced token tsk p h = ground arith

-- Nothing is posted for a task without the result of a runner, and so never the state "pending"
-- for a task that is in work: a task has no result before it ended.
pub post_status_to_github-silent :
    (token : String) (tsk : Task) (p : StatusPost)
    → tsk.result ≡ Result.no_result
    → ◌≢◌ {A = Fallible String (Option StatusPost)} (post_status_to_github token tsk) (ok (some p))
post_status_to_github-silent token tsk p none_yet h =
    let (o, typed) = announce-runner_result tsk (some p) (announced token tsk p h) in
    no_outcome tsk.result o none_yet typed

split_whole : (s : Bytes) → All (λ c. c ≢ 47) s → split s ≡ s ∷ []
unfolding split
split_whole [] h = refl
split_whole (c ∷ s) (other, others) = ground (arith, split_whole s others)

-- A task of a CI whose repository is written without a slash makes it panic, which ends the
-- daemon.
pub post_status_to_github-panics :
    (token : String) (tsk : Task)
    → token ≢ ""
    → created_by_ci tsk ≡ true
    → All (λ c. c ≢ 47) (codes tsk.created_by.repo)
    → post_status_to_github token tsk ≡ panic
unfolding post_status_to_github announce
post_status_to_github-panics token tsk on ci whole =
    ground (arith, eq_iff token "", ci, split_whole (codes tsk.created_by.repo) whole)
