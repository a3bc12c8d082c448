-- ===== src/Validation/Tests.antt =====
-- internal/validation: checks, runs and summaries on concrete scenarios.
use spatial_server.Base.{
  ℕ, ◌≡◌, refl, true, false, none, some, [], ◌∷◌, String, String_dec, string_key, leb, ℕ_discrete,
}
use spatial_server.Base.Text.{decimal, ◌<>◌}
use spatial_server.Validation.Scenario.{
  Infrastructure, fetched, error, Requirements, ScenarioMetadata, Severity, ExecutionMode,
  AcceptanceCriterion, AcceptancePolicy, validate_scenarios, check_requirements, ObserverPolicy,
  Evidence, ValidationResult, ValidationStatus, ObservationPhase,
}
use spatial_server.Validation.Scenario.Checks.{IsVerdict, validate_scenarios-IsVerdict}
use spatial_server.Validation.Report.{ValidationReport, Outcome, new_summary}
use spatial_server.Validation.Report.Summary.{count, ValidationStatus-discrete, summary_adds_up}
use spatial_server.Validation.Report.Statistics.{IsStatistics}
use spatial_server.Validation.Runner.{
  Attempt, done, panicked, returned, ScenarioDefinition, Clock, observe_all, validate_all,
  evaluate_acceptance, is_fail,
}
use spatial_server.Validation.Run.{execute, run}
use spatial_server.Validation.Run.Cleanup.{IsClean, run_cleans_up}
use spatial_server.Validation.Run.Verdict.{WentWell, passed_run}
use spatial_server.Validation.Recovery.{CompositeMode, Condition, wait}
use spatial_server.Validation.Recovery.Waits.{IsFirst, holds, wait-IsFirst}

abbrev nothing_required : Requirements
nothing_required = record {
  min_runtime_nodes = 1;
  compose_required = false;
  postgre_sql = true;
  redis = false;
  network_faults = false;
}

abbrev named : String → ScenarioMetadata
named id = record {
  id = id;
  name = id;
  description = "";
  version = 1;
  tags = [];
  severity = Severity.high;
  mode = ExecutionMode.process;
  requirements = nothing_required;
  timeout = 0;
  expected_behavior = "";
}

validate_scenarios-IsVerdict_example :
    IsVerdict ("a" ∷ "b" ∷ "a" ∷ []) (validate_scenarios (named "a" ∷ named "b" ∷ named "a" ∷ []))
validate_scenarios-IsVerdict_example =
    validate_scenarios-IsVerdict (named "a" ∷ named "b" ∷ named "a" ∷ [])

abbrev infra : Infrastructure
infra = record {
  endpoint = λ id. error "no redis";
  database = λ id. fetched "postgres://";
  runtime_nodes = 2;
}

abbrev soon : AcceptanceCriterion
soon = record { threshold = 10; policy = AcceptancePolicy.accept_fail }

abbrev seen : Evidence
seen = record {
  timestamp = 3;
  phase = ObservationPhase.baseline;
  source = "state";
  kind = "count";
  key = "entity-count";
  value = "2";
}

abbrev verdict : ValidationResult
verdict = record {
  validator = "entity";
  status = ValidationStatus.pass;
  evidence_indices = [];
  detail = "2";
}

abbrev scenario : Attempt Unit → ScenarioDefinition
scenario recovery = record {
  metadata = named "kill";
  setup = done (infra, returned tt);
  injector = record { inject = λ i. done tt; recover = λ i. recovery };
  observers =
      record {
        name = "state";
        policy = ObserverPolicy.required;
        observe = λ phase i. done (seen ∷ []);
      }
      ∷ [];
  validators = record { validate = λ base post. returned verdict } ∷ [];
  recovery = λ i. record { ended = done tt; deadline_exceeded = false; took = 7 };
  reporter = none;
  acceptance = record {
    recovery_duration = soon;
    ownership_convergence = soon;
    tick_p95 = soon;
    reconnect_time = soon;
    queue_drain_time = soon;
  };
}

abbrev clock : Clock
clock = record { start = 100; total = 9; observed = λ phase name. 101 }

abbrev accepted : String → String → ValidationResult
accepted name actual = record {
  validator = "acceptance/" <> name;
  status = ValidationStatus.pass;
  evidence_indices = [];
  detail = name <> " actual=" <> actual <> " threshold=10 policy=fail";
}

abbrev kill_report : ValidationReport
kill_report = record {
  framework = record { version = "1.0.0"; scenario_version = "1"; exec_timestamp = 100 };
  scenario = named "kill";
  outcome = Outcome.passed;
  duration = 9;
  baseline = seen ∷ [];
  post_recovery = seen ∷ [];
  validations = verdict ∷ accepted "recovery-duration" "7" ∷ accepted "tick-p95" "0" ∷ [];
  measurement = record { recovery_duration = 7; tick_p95 = 0 };
  root_cause = "";
}

run_passes : run clock decimal (scenario (done tt)) ≡ some kill_report
unfolding run check_requirements observe_all validate_all evaluate_acceptance decimal String_dec
    ℕ_discrete is_fail
run_passes = refl

passed_run_example : WentWell clock (scenario (done tt))
passed_run_example = passed_run clock decimal (scenario (done tt)) kill_report run_passes refl

-- A setup that panics leaves `Run` without a report.
run_nil : run clock decimal (record (scenario (done tt)) { setup = panicked "boom" }) ≡ none
unfolding run
run_nil = refl

summary_adds_up_example :
    let s = new_summary 5 (kill_report ∷ kill_report ∷ []) in
    (s.outcomes.total ≡ 2)
    × (s.outcomes.passed ≡ count Outcome.passed (kill_report ∷ kill_report ∷ []))
    × (s.outcomes.failed ≡ count Outcome.failed (kill_report ∷ kill_report ∷ []))
    × (s.outcomes.skipped ≡ count Outcome.skipped (kill_report ∷ kill_report ∷ []))
    × (s.outcomes.timed_out ≡ count Outcome.timed_out (kill_report ∷ kill_report ∷ []))
    × (s.outcomes.errors ≡ count Outcome.error (kill_report ∷ kill_report ∷ []))
    × (s.total_duration ≡ 18)
    × (s.invariants.total ≡ 6)
    × (s.invariants.passed ≡ 6)
    × (s.invariants.warned ≡ 0)
    × (s.invariants.failed ≡ 0)
    × (s.invariants.skipped ≡ 0)
    × IsStatistics (7 ∷ 7 ∷ []) s.recovery
unfolding ValidationStatus-discrete
summary_adds_up_example = summary_adds_up 5 (kill_report ∷ kill_report ∷ [])

run_cleans_up_example : IsClean (execute clock decimal (scenario (panicked "stop"))).log
run_cleans_up_example = run_cleans_up clock decimal (scenario (panicked "stop"))

abbrev at_poll : String → ℕ → Condition
at_poll name n = record { name = name; met = λ poll. leb n poll }

wait-IsFirst_example :
    IsFirst (holds CompositeMode.mode_all (at_poll "a" 2 ∷ at_poll "b" 1 ∷ [])) 0 5 (
      wait
        (record { mode = CompositeMode.mode_all; conditions = at_poll "a" 2 ∷ at_poll "b" 1 ∷ [] })
        5)
wait-IsFirst_example = wait-IsFirst CompositeMode.mode_all (at_poll "a" 2) (at_poll "b" 1 ∷ []) 5

waits_for_both :
    wait
      (record { mode = CompositeMode.mode_all; conditions = at_poll "a" 2 ∷ at_poll "b" 1 ∷ [] })
      5
    ≡ some 2
unfolding wait ℕ_discrete
waits_for_both = refl
