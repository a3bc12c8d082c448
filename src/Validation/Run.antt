-- ===== src/Validation/Run.antt =====
-- internal/validation/runner.go: `ScenarioRunner.Run`, with its deferred calls and its panics.
pub mod Cleanup
pub mod Ending
pub mod Verdict
use spatial_server.Base.{
  ℕ, Bool, true, false, Option, none, some, List, [], ◌∷◌, ◌++◌, if◌then◌else◌, ◌==◌, String,
  string_key,
}
use spatial_server.Base.Text.{decimal, ◌<>◌}
use spatial_server.Validation.Scenario.{
  Infrastructure, ScenarioMetadata, check_requirements, ObservationPhase, Evidence,
}
use spatial_server.Validation.Report.{ValidationReport, Outcome, framework_version}
use spatial_server.Validation.Runner.{
  Attempt, done, failed, panicked, Called, returned, panic, Injector, Waited, ScenarioDefinition,
  Clock, Validated, observe_all, validate_all, evaluate_acceptance,
}

-- The calls of the scenario's code that a run makes, in their order.
pub data Action : Type 0 where
  set_up tore_down injected recovered waited judged reported : Action
  observed : ObservationPhase → Action

-- A run that has left its body: the report, the calls so far, whether a `return` was reached, and
-- the panic that is under way.
pub record Execution : Type 0 where
  pub report : ValidationReport
  pub log : List Action
  pub finished : Bool
  pub crash : Option String

-- The value of the outcome "" is `unset`.
is_unset : Outcome → Bool
is_unset Outcome.unset = true
is_unset _ = false

left : ValidationReport → List Action → Execution
left r log = record { report = r; log = log; finished = true; crash = none }

left_with : Outcome → String → ValidationReport → List Action → Execution
unfolding left
left_with outcome cause r log = left (record r { outcome = outcome; root_cause = cause }) log

crashed : String → ValidationReport → List Action → Execution
crashed e r log = record { report = r; log = log; finished = false; crash = some e }

-- A call whose error is dropped, as by `_ = sc.Injector.Recover(...)`.
unfoldable pub dropped : Attempt Unit → Called Unit
dropped (done _) = returned tt
dropped (failed e) = returned tt
dropped (panicked e) = panic e

-- A deferred call: it is made however the body was left, and its panic replaces an earlier one.
crash_of : Called Unit → Option String → Option String
crash_of (returned _) crash = crash
crash_of (panic e) crash = some e

unfoldable pub deferred : Action → Called Unit → Execution → Execution
unfolding crash_of
deferred action call x = record x { log = x.log ++ action ∷ []; crash = crash_of call x.crash }

-- The body of `Run` from its end. The last part: the call of the reporter.
generated : ValidationReport → List Action → Called Unit → Execution
unfolding left crashed
generated r log (returned _) = left r log
generated r log (panic e) = crashed e r log

reported_by : ValidationReport → List Action → Option (ValidationReport → Attempt Unit) → Execution
unfolding generated left dropped
reported_by r log none = left r log
reported_by r log (some generate) = generated r (log ++ reported ∷ []) (dropped (generate r))

-- After the validators: the outcome, if there is none yet, and the acceptance criteria.
decided : ValidationReport → Bool → ValidationReport
unfolding is_unset
decided r passed =
    if is_unset r.outcome
    then record r { outcome = if passed then Outcome.passed else Outcome.failed }
    else r

judged_by :
    (ℕ → String)
    → ScenarioDefinition
    → List Action
    → ValidationReport
    → Bool
    → Option String
    → Execution
unfolding decided reported_by crashed
judged_by show sc log r passed (some e) = crashed e r log
judged_by show sc log r passed none =
    reported_by (evaluate_acceptance show (decided r passed) sc.acceptance) log sc.reporter

validated : (ℕ → String) → ScenarioDefinition → List Action → Validated → Execution
unfolding judged_by
validated show sc log v = judged_by show sc (log ++ judged ∷ []) v.report v.all_passed v.crash

-- After the second observation.
observed_post :
    (ℕ → String)
    → ScenarioDefinition
    → List Evidence
    → ValidationReport
    → List Action
    → Attempt (List Evidence)
    → Execution
unfolding validated left_with crashed
observed_post show sc base r log (failed e) =
    left_with Outcome.error ("post-recovery observe: " <> e) r log
observed_post show sc base r log (panicked e) = crashed e r log
observed_post show sc base r log (done post) =
    validated show sc log
      (validate_all base post sc.validators (record r { post_recovery = post }) true)

pub observe_post :
    Clock
    → (ℕ → String)
    → ScenarioDefinition
    → Infrastructure
    → List Evidence
    → ValidationReport
    → List Action
    → Execution
unfolding observed_post
observe_post clock show sc infra base r log =
    observed_post show sc base r (log ++ observed ObservationPhase.post_recovery ∷ [])
      (observe_all clock ObservationPhase.post_recovery sc.observers infra)

-- The report after `Wait` failed.
late : Bool → String → ValidationReport → ValidationReport
late true e r = record r { outcome = Outcome.timed_out; root_cause = "recovery timed out" }
late false e r = record r { outcome = Outcome.error; root_cause = "recovery: " <> e }

-- After the recovery.
recovered_by :
    Clock
    → (ℕ → String)
    → ScenarioDefinition
    → Infrastructure
    → List Evidence
    → ValidationReport
    → List Action
    → Waited
    → Execution
unfolding observe_post late crashed
recovered_by clock show sc infra base r log w =
    let timed = record r { measurement = record r.measurement { recovery_duration = w.took } } in
    elim w.ended [
      | done _ ↦ observe_post clock show sc infra base timed log
      | failed e ↦ observe_post clock show sc infra base (late w.deadline_exceeded e timed) log
      | panicked e ↦ crashed e r log
    ]

-- After the injection.
injected_by :
    Clock
    → (ℕ → String)
    → ScenarioDefinition
    → Infrastructure
    → List Evidence
    → ValidationReport
    → List Action
    → Attempt Unit
    → Execution
unfolding recovered_by left_with crashed
injected_by clock show sc infra base r log (failed e) =
    left_with Outcome.error ("inject: " <> e) r log
injected_by clock show sc infra base r log (panicked e) = crashed e r log
injected_by clock show sc infra base r log (done _) =
    recovered_by clock show sc infra base r (log ++ waited ∷ []) (sc.recovery infra)

-- After the first observation; from here on the injector's `Recover` is deferred.
observed_base :
    Clock
    → (ℕ → String)
    → ScenarioDefinition
    → Infrastructure
    → ValidationReport
    → List Action
    → Attempt (List Evidence)
    → Execution
unfolding injected_by left_with crashed deferred dropped
observed_base clock show sc infra r log (failed e) =
    left_with Outcome.error ("baseline observe: " <> e) r log
observed_base clock show sc infra r log (panicked e) = crashed e r log
observed_base clock show sc infra r log (done base) =
    deferred recovered (dropped (sc.injector.recover infra)) (
      injected_by clock show sc infra base (record r { baseline = base }) (log ++ injected ∷ [])
        (sc.injector.inject infra))

checked :
    Clock
    → (ℕ → String)
    → ScenarioDefinition
    → Infrastructure
    → ValidationReport
    → Bool × String
    → Execution
unfolding observed_base left_with
checked clock show sc infra r met =
    if met.0
    then observed_base clock show sc infra r (set_up ∷ observed ObservationPhase.baseline ∷ [])
        (observe_all clock ObservationPhase.baseline sc.observers infra)
    else left_with Outcome.skipped met.1 r (set_up ∷ [])

-- After `Setup`, whose second value is deferred.
began :
    Clock
    → (ℕ → String)
    → ScenarioDefinition
    → ValidationReport
    → Attempt (Infrastructure × Called Unit)
    → Execution
unfolding checked left_with crashed deferred
began clock show sc r (failed e) = left_with Outcome.error ("setup: " <> e) r []
began clock show sc r (panicked e) = crashed e r []
began clock show sc r (done (infra, teardown)) =
    deferred tore_down teardown
      (checked clock show sc infra r (check_requirements infra sc.metadata.requirements))

first_report : Clock → ScenarioMetadata → ValidationReport
first_report clock metadata = record {
  framework = record {
    version = framework_version;
    scenario_version = decimal metadata.version;
    exec_timestamp = clock.start;
  };
  scenario = metadata;
  outcome = Outcome.unset;
  duration = 0;
  baseline = [];
  post_recovery = [];
  validations = [];
  measurement = record { recovery_duration = 0; tick_p95 = 0 };
  root_cause = "";
}

unfoldable pub execute : Clock → (ℕ → String) → ScenarioDefinition → Execution
unfolding began first_report
execute clock show sc = began clock show sc (first_report clock sc.metadata) sc.setup

-- The deferred `recover`.
caught : ValidationReport → Option String → ValidationReport
caught r none = r
caught r (some e) = record r {
  outcome = Outcome.error;
  root_cause = if r.root_cause == "" then "panic: " <> e else r.root_cause;
}

-- `Run`. Its result has no name, so that it is nil, here `none`, if no `return` was reached.
unfoldable pub run : Clock → (ℕ → String) → ScenarioDefinition → Option ValidationReport
unfolding execute caught
run clock show sc =
    let x = execute clock show sc in
    if x.finished then some (record (caught x.report x.crash) { duration = clock.total }) else none
