-- ===== src/Tests/Engines.antt =====
-- The engine at concrete states.
use mathlib.Core.List.{Perm}
use testground.Base.Int.{pos}
use testground.Task.Queue.{Queue}
use testground.Task.Queue.Operations.{IsValid}
use testground.Api.Composition.{Composition}
use testground.Engine.Queueing.{
  QueueError, Request, IsCompatible, run_task, check_run, queue_run, queue_run_correct,
}
use testground.Base.{
  ℕ, ◌≡◌, ◌≢◌, ◌⊎◌, refl, String, true, false, List, [], ◌∷◌, Option, none, some, arith, All,
}
use testground.Base.Maps.{Map, lookup}
use testground.Base.Errors.{ok, err, panic}
use testground.Task.{Task, Result, created_by_ci}
use testground.Task.Bytes.{Bytes, codes, bytes_eq, format_int}
use testground.Task.Payload.{Outcome, object, null}
use testground.Task.Encoding.{marshal}
use testground.Task.Keys.{Phase}
use testground.Task.Storage.{
  persist_processing, persist_scheduled, archive_task, put, change_prefix, key_of,
}
use testground.Task.Storage.Phases.{at}
use testground.Engine.Signals.{Signals, add_signal, Reached, begin, next, starts}
use testground.Engine.Github.{post_status_to_github}
use testground.Engine.Worker.{RunFailure, Surroundings, Daemon, in_work, ended, begin_state, handle}
use testground.Engine.Worker.Archive.{done_state, handle-archives, handle-leaks}
use testground.Tests.Database.{Entries, test_db, test_xids, find, without}
use testground.Tests.Tasks.{urgent}

abbrev idle : Signals
idle = record { channels = []; closed = [] }

abbrev busy : Signals
busy = record { channels = ("urgent", 7) ∷ []; closed = [] }

reached : Reached (add_signal "urgent" 7 idle)
unfolding lookup
reached = next idle (add_signal "urgent" 7 idle) begin (starts "urgent" 7 idle (refl, λ j e. cc e))

-- the task of a CI whose repository is not "owner/repo"
abbrev of_ci : Task
of_ci = record urgent {
  created_by = record { user = "bot"; repo = "testground"; branch = "main"; commit = "4f" };
}

is_ci : created_by_ci of_ci ≡ true
unfolding created_by_ci
is_ci = refl

no_slash : All (λ c. c ≢ 47) (codes "testground")
no_slash = (
  λ e. cc e,
  (
    λ e. cc e,
    (
      λ e. cc e,
      (λ e. cc e, (λ e. cc e, (λ e. cc e, (λ e. cc e, (λ e. cc e, (λ e. cc e, (λ e. cc e, tt))))))),
    ),
  ),
)

abbrev surroundings : Surroundings
surroundings = record {
  channel = 7;
  log_opens = true;
  do_run = λ j. ok (some (Result.runner_result Outcome.success "ok"), none);
  do_build = λ j. ok (none, none);
  started_at = 63735596850000000000;
  ended_at = 63735596900000000000;
  github_token = "";
}

abbrev daemon : Daemon Entries
daemon = record { store = []; signals = idle }

abbrev outcome : Result × Option RunFailure
outcome = (Result.runner_result Outcome.success "ok", none)

abbrev stored_once : Entries
stored_once =
    (key_of test_xids (codes "current") (codes "urgent"), marshal (in_work surroundings urgent))
    ∷ []

abbrev final : Task
final = ended surroundings (in_work surroundings urgent) outcome

abbrev stored_twice : Entries
stored_twice = (key_of test_xids (codes "current") (codes "urgent"), marshal final) ∷ stored_once

abbrev stored_last : Entries
stored_last = (archive_task test_db test_xids final stored_twice).1

stores_once :
    persist_processing test_db test_xids (in_work surroundings urgent) [] ≡ (ok tt, stored_once)
unfolding persist_processing put bytes_eq
stores_once = refl

stores_twice : persist_processing test_db test_xids final stored_once ≡ (ok tt, stored_twice)
unfolding persist_processing put bytes_eq
stores_twice = refl

archives : archive_task test_db test_xids final stored_twice ≡ (ok tt, stored_last)
unfolding archive_task change_prefix find without bytes_eq key_of format_int
archives = refl

urgent-known : ◌≡◌ {A = Option Bytes} (test_xids.from_string "urgent") (some (codes "urgent"))
unfolding bytes_eq
urgent-known = refl

nothing_posted : (t : Task) → post_status_to_github "" t ≢ panic
unfolding post_status_to_github
nothing_posted t e = cc e

handle-archives_example :
    (handle test_db test_xids surroundings urgent daemon
      ≡ (ok tt, done_state test_db test_xids surroundings urgent daemon stored_last))
    × (at test_db test_xids stored_last Phase.archived (codes "urgent") ≡ some (marshal final))
    × (at test_db test_xids stored_last Phase.current (codes "urgent") ≡ none)
    × (lookup "urgent"
          (done_state test_db test_xids surroundings urgent daemon stored_last).signals.channels
        ≡ none)
handle-archives_example =
    handle-archives test_db test_xids surroundings urgent daemon stored_once stored_twice
      stored_last outcome (codes "urgent") urgent-known stores_once
      (nothing_posted (in_work surroundings urgent)) refl refl stores_twice archives
      (nothing_posted final)

abbrev no_log : Surroundings
no_log = record surroundings { log_opens = false }

handle-leaks_example :
    (handle test_db test_xids no_log urgent daemon
      ≡ (ok tt, begin_state test_db test_xids no_log "urgent" idle stored_once))
    × (at test_db test_xids stored_once Phase.current (codes "urgent")
        ≡ some (marshal (in_work no_log urgent)))
    × (lookup "urgent"
          (begin_state test_db test_xids no_log "urgent" idle stored_once).signals.channels
        ≡ some 7)
handle-leaks_example =
    handle-leaks test_db test_xids no_log urgent daemon stored_once (codes "urgent") urgent-known
      stores_once (nothing_posted (in_work no_log urgent)) refl

abbrev request : Request
request = record {
  priority = pos 1;
  created_by = record { user = "dev"; repo = ""; branch = ""; commit = "" };
  payload = object "{}";
}

abbrev empty_queue : Queue Entries
empty_queue = record { tq = []; ts = []; max = pos 3 }

empty_queue-IsValid : IsValid empty_queue
empty_queue-IsValid = record {
  ordered = record { heap = λ c p q. absurd (omega arith); fit = λ i q. absurd (omega arith) };
  bounded = refl;
}

abbrev network : Composition
network = record {
  metadata = record { name = "demo"; author = "" };
  global = record {
    plan = "network";
    case = "ping-pong";
    total_instances = 0;
    builder = "docker:go";
    build_config = none;
    build = none;
    runner = "local:docker";
    run_config = none;
    run = none;
    disable_metrics = false;
  };
  groups = [];
}

abbrev runner_table : Map (List String)
runner_table = ("local:docker", "docker:go" ∷ []) ∷ []

abbrev queued_store : Entries
queued_store =
    (
      key_of test_xids (codes "queue") (codes "c1"),
      marshal (run_task "c1" 63735596800000000000 request network null),
    )
    ∷ []

stores_run :
    persist_scheduled test_db test_xids (run_task "c1" 63735596800000000000 request network null) []
    ≡ (ok tt, queued_store)
unfolding persist_scheduled put bytes_eq
stores_run = refl

queue_run_correct_example :
    ((e : QueueError) × (check_run test_db test_xids {F = ℕ} runner_table network [] ≡ err e)
      × (queue_run test_db test_xids {F = ℕ} runner_table network [] "c1" 63735596800000000000
            request null empty_queue
          ≡ (err e, empty_queue)))
    ⊎ (((check_run test_db test_xids {F = ℕ} runner_table network [] ≡ panic)
          × (queue_run test_db test_xids {F = ℕ} runner_table network [] "c1" 63735596800000000000
                request null empty_queue
              ≡ (panic, empty_queue)))
        ⊎ ((tq : List Task) × IsCompatible {F = ℕ} runner_table network []
            × (queue_run test_db test_xids {F = ℕ} runner_table network [] "c1" 63735596800000000000
                  request null empty_queue
                ≡ (ok "c1", record empty_queue { tq = tq; ts = queued_store }))
            × IsValid {Db = Entries} (record empty_queue { tq = tq; ts = queued_store })
            × Perm tq (run_task "c1" 63735596800000000000 request network null ∷ [])))
queue_run_correct_example =
    queue_run_correct test_db test_xids {F = ℕ} runner_table network [] "c1" 63735596800000000000
      request null empty_queue empty_queue-IsValid refl queued_store stores_run
