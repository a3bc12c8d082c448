-- ===== src/Validation/Runner.antt =====
-- internal/validation/runner.go: the parts of `ScenarioRunner.Run`: observers, validators, acceptance.
pub mod Passes
use spatial_server.Base.{
  ℕ, Bool, true, false, Option, none, some, List, [], ◌∷◌, ◌++◌, if◌then◌else◌, ltb, ◌==◌, ◌&&◌,
  String, string_key, nat_key,
}
use spatial_server.Base.Text.{decimal, ◌<>◌}
use spatial_server.Validation.Scenario.{
  Infrastructure, ScenarioMetadata, AcceptanceCriterion, AcceptanceCriteria, AcceptancePolicy,
  accept_warn, accept_fail, check_requirements, ObservationPhase, Evidence, ObserverPolicy,
  ValidationStatus, ValidationResult,
}
use spatial_server.Validation.Report.{ValidationReport, Outcome, framework_version}

-- How a call of a scenario's own code ends: with a value, with an error, or in a panic.
pub data Attempt (A : Type 0) : Type 0 where
  done : A → Attempt A
  failed : String → Attempt A
  panicked : String → Attempt A

-- The same of a call that has no error.
pub data Called (A : Type 0) : Type 0 where
  returned : A → Called A
  panic : String → Called A

pub record Injector : Type 0 where
  pub inject : Infrastructure → Attempt Unit
  pub recover : Infrastructure → Attempt Unit

pub record Observer : Type 0 where
  pub name : String
  pub policy : ObserverPolicy
  pub observe : ObservationPhase → Infrastructure → Attempt (List Evidence)

pub record Validator : Type 0 where
  pub validate : List Evidence → List Evidence → Called ValidationResult

-- A call of `Wait`: how it ended, whether the deadline of the context had passed then, and the time
-- that it took.
pub record Waited : Type 0 where
  pub ended : Attempt Unit
  pub deadline_exceeded : Bool
  pub took : ℕ

-- The functions and interfaces of a scenario by what their calls in one run do.
pub record ScenarioDefinition : Type 0 where
  pub metadata : ScenarioMetadata
  pub setup : Attempt (Infrastructure × Called Unit)
  pub injector : Injector
  pub observers : List Observer
  pub validators : List Validator
  pub recovery : Infrastructure → Waited
  pub reporter : Option (ValidationReport → Attempt Unit)
  pub acceptance : AcceptanceCriteria

-- The readings of the clock: the start, the whole duration, and the time of an observer's error.
pub record Clock : Type 0 where
  pub start : ℕ
  pub total : ℕ
  pub observed : ObservationPhase → String → ℕ

show_phase : ObservationPhase → String
show_phase ObservationPhase.baseline = "baseline"
show_phase ObservationPhase.post_recovery = "post_recovery"

observer_error : Clock → ObservationPhase → String → String → Evidence
observer_error clock phase name e = record {
  timestamp = clock.observed phase name;
  phase = phase;
  source = name;
  kind = "error";
  key = "observer-error";
  value = e;
}

-- An observer has failed: that is an error of a required one, and evidence of another.
observer_failed :
    Clock
    → ObservationPhase
    → String
    → ObserverPolicy
    → List Evidence
    → (List Evidence → Attempt (List Evidence))
    → String
    → Attempt (List Evidence)
unfolding observer_error show_phase
observer_failed clock phase name ObserverPolicy.required all rest e =
    failed (name <> "(" <> show_phase phase <> "): " <> e)
observer_failed clock phase name ObserverPolicy.optional all rest e =
    rest (all ++ observer_error clock phase name e ∷ [])

-- What `observeAll` does with the answer of one observer; `rest` is the loop over the others.
observed_one :
    Clock
    → ObservationPhase
    → Observer
    → List Evidence
    → (List Evidence → Attempt (List Evidence))
    → Attempt (List Evidence)
    → Attempt (List Evidence)
unfolding observer_failed
observed_one clock phase o all rest (done e) = rest (all ++ e)
observed_one clock phase o all rest (panicked e) = panicked e
observed_one clock phase o all rest (failed e) =
    observer_failed clock phase o.name o.policy all rest e

observe_from :
    Clock
    → ObservationPhase
    → Infrastructure
    → List Observer
    → List Evidence
    → Attempt (List Evidence)
unfolding observed_one
observe_from clock phase infra [] all = done all
observe_from clock phase infra (o ∷ observers) all =
    observed_one clock phase o all (observe_from clock phase infra observers)
      (o.observe phase infra)

unfoldable pub observe_all :
    Clock → ObservationPhase → List Observer → Infrastructure → Attempt (List Evidence)
unfolding observe_from
observe_all clock phase observers infra = observe_from clock phase infra observers []

unfoldable pub is_fail : ValidationStatus → Bool
is_fail ValidationStatus.fail = true
is_fail _ = false

-- The report after a validator's result.
add_result : ValidationReport → ValidationResult → ValidationReport
unfolding is_fail
add_result r result = record r {
  validations = r.validations ++ result ∷ [];
  root_cause =
      if is_fail result.status && (r.root_cause == "")
      then result.validator <> ": " <> result.detail
      else r.root_cause;
}

-- The report after the loop over the validators, whether all passed, and the panic of one of them.
pub record Validated : Type 0 where
  pub report : ValidationReport
  pub all_passed : Bool
  pub crash : Option String

validated_one :
    ValidationReport
    → Bool
    → (ValidationReport → Bool → Validated)
    → Called ValidationResult
    → Validated
unfolding add_result is_fail
validated_one r passed rest (returned result) =
    rest (add_result r result) (if is_fail result.status then false else passed)
validated_one r passed rest (panic e) = record { report = r; all_passed = passed; crash = some e }

unfoldable pub validate_all :
    List Evidence → List Evidence → List Validator → ValidationReport → Bool → Validated
unfolding validated_one
validate_all base post [] r passed = record { report = r; all_passed = passed; crash = none }
validate_all base post (v ∷ validators) r passed =
    validated_one r passed (validate_all base post validators) (v.validate base post)

show_policy : AcceptancePolicy → String
show_policy AcceptancePolicy.accept_warn = "warn"
show_policy AcceptancePolicy.accept_fail = "fail"

criterion_result :
    (ℕ → String) → String → ℕ → AcceptanceCriterion → ValidationStatus → ValidationResult
unfolding show_policy
criterion_result show name actual c status = record {
  validator = "acceptance/" <> name;
  status = status;
  evidence_indices = [];
  detail =
      name
      <> " actual="
      <> show actual
      <> " threshold="
      <> show c.threshold
      <> " policy="
      <> show_policy c.policy;
}

exceeded :
    (ℕ → String)
    → String
    → ℕ
    → AcceptanceCriterion
    → AcceptancePolicy
    → ValidationReport
    → ValidationReport
unfolding criterion_result
exceeded show name actual c AcceptancePolicy.accept_fail r = record r {
  outcome = Outcome.failed;
  validations = r.validations ++ criterion_result show name actual c ValidationStatus.fail ∷ [];
}
exceeded show name actual c AcceptancePolicy.accept_warn r = record r {
  validations = r.validations ++ criterion_result show name actual c ValidationStatus.warn ∷ [];
}

-- `check` of `evaluateAcceptance`. `show` prints a duration.
check_criterion :
    (ℕ → String) → String → ℕ → AcceptanceCriterion → ValidationReport → ValidationReport
unfolding exceeded
check_criterion show name actual c r =
    if c.threshold == 0
    then r
    else if ltb c.threshold actual
    then exceeded show name actual c c.policy r
    else record r {
      validations = r.validations ++ criterion_result show name actual c ValidationStatus.pass ∷ [];
    }

unfoldable pub evaluate_acceptance :
    (ℕ → String) → ValidationReport → AcceptanceCriteria → ValidationReport
unfolding check_criterion
evaluate_acceptance show r ac = check_criterion show "tick-p95" r.measurement.tick_p95 ac.tick_p95 (
    check_criterion show "recovery-duration" r.measurement.recovery_duration ac.recovery_duration r)
