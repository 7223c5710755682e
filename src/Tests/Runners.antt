-- ===== src/Tests/Runners.antt =====
-- The events of a run, and the data networks, at concrete values.
use testground.Base.{
  ℕ, false, ◌==◌, ◌%◌, if◌then◌else◌, ◌<◌, ◌≤◌, ◌≡◌, ◌≢◌, ◌⊎◌, refl, none, List, [], ◌∷◌,
}
use testground.Base.Maps.{Map, lookup}
use testground.Base.Errors.{ok, err}
use testground.Task.Payload.{Outcome}
use testground.Runner.Outcomes.{
  GroupOutcome, Event, HasDistinctKeys, AreKnown, AllDone, collect_outcomes,
  collect_outcomes_correct,
}
use testground.Base.Int.{pos}
use testground.Engine.Runs.{RunInput}
use testground.Runner.Printer.{Line}
use testground.Runner.LocalExec.{
  Start, Environment, nodes_failed, failing_groups, run_local_exec, run_local_exec_correct,
}
use testground.Runner.Networks.{DataNetwork, next_data_network, next_data_network-distinct}

abbrev two_groups : Map GroupOutcome
two_groups =
    ("servers", record { ok_count = 0; total = 1 })
    ∷ ("clients", record { ok_count = 0; total = 2 })
    ∷ []

abbrev three_events : List Event
three_events = Event.success "clients" ∷ Event.another ∷ Event.success "servers" ∷ []

two_groups-HasDistinctKeys : HasDistinctKeys two_groups
unfolding lookup
two_groups-HasDistinctKeys = (refl, (refl, tt))

three_events-AreKnown : AreKnown three_events two_groups
unfolding lookup
three_events-AreKnown =
    ((record { ok_count = 0; total = 2 }, refl), ((record { ok_count = 0; total = 1 }, refl), tt))

collect_outcomes_correct_example :
    ((collect_outcomes three_events two_groups ≡ ok Outcome.success)
      × (two_groups ≢ [])
      × AllDone three_events two_groups)
    ⊎ ((collect_outcomes three_events two_groups ≡ ok Outcome.failure)
        × ¬ ((two_groups ≢ []) × AllDone three_events two_groups))
collect_outcomes_correct_example =
    collect_outcomes_correct three_events two_groups two_groups-HasDistinctKeys
      three_events-AreKnown

next_data_network-distinct_example :
    ((300 < 4096)
      × (net : DataNetwork) × (next_data_network 300 ≡ ok net)
      × (16 ≤ net.a)
      × (net.a ≤ 31)
      × (net.b ≤ 255)
      × (next_data_network 4 ≡ ok net → ◌≡◌ {A = ℕ} 4 300))
    ⊎ ((4096 ≤ 300) × (next_data_network 300 ≡ err "space exhausted"))
next_data_network-distinct_example = next_data_network-distinct 4 300

-- the first instance passes, the second crashes
abbrev two_instances : Environment
two_instances id i =
    if i == 0 then Start.started (Line.success ∷ []) else Start.started (Line.crash ∷ [])

abbrev local_run : RunInput
local_run = record {
  run_id = "c1";
  runner_config = [];
  test_plan = "network";
  test_case = "ping-pong";
  total_instances = pos 2;
  groups =
      record {
        id = "single";
        instances = pos 2;
        artifact_path = "/tmp/plan";
        parameters = none;
        resources = record { memory = ""; cpu = "" };
        profiles = none;
      }
      ∷ [];
  disable_metrics = false;
}

run_local_exec_correct_example :
    let failed = failing_groups two_instances local_run.groups % 4294967296 in
    run_local_exec two_instances local_run
    ≡ (if failed == 0 then ok "c1" else err (nodes_failed failed))
run_local_exec_correct_example = run_local_exec_correct two_instances local_run refl
