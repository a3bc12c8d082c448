-- ===== src/Validation/Runner/Passes.antt =====
-- internal/validation/runner.go: validators and acceptance criteria that let a run pass.
use spatial_server.Base.{
  ℕ, ◌≡◌, refl, Bool, true, false, none, List, [], ◌∷◌, if◌then◌else◌, ltb, ◌==◌, ◌&&◌, not, String,
  string_key, nat_key, arith, All,
}
use spatial_server.Validation.Scenario.{
  AcceptanceCriterion, AcceptanceCriteria, AcceptancePolicy, Evidence, ValidationResult,
  ObservationPhase, ObserverPolicy, Infrastructure,
}
use spatial_server.Validation.Report.{ValidationReport, Outcome, Measurement}
use spatial_server.Validation.Runner.{
  Attempt, done, failed, panicked, Clock, Observer, observer_failed, observed_one, observe_from,
  observe_all, Called, returned, panic, Validator, Validated, is_fail, add_result, validated_one,
  validate_all, exceeded, check_criterion, evaluate_acceptance,
}

-- The validator returns a result that is no failure.
abbrev pub Accepts : List Evidence → List Evidence → Validator → Type 0
Accepts base post v =
    (result : ValidationResult) × (v.validate base post ≡ returned result)
    × (is_fail result.status ≡ false)

abbrev is_accepted : Called ValidationResult → Bool
is_accepted (returned result) = not (is_fail result.status)
is_accepted (panic e) = false

accepted :
    (c : Called ValidationResult)
    → is_accepted c ≡ true
    → (result : ValidationResult) × (c ≡ returned result) × (is_fail result.status ≡ false)
accepted (returned result) h = (result, refl, ground arith)
accepted (panic e) h = cc

-- An observer lets a run go on: it returns its evidence, or it is optional and returns an error.
abbrev goes_on : ObserverPolicy → Attempt (List Evidence) → Bool
goes_on policy (done e) = true
goes_on ObserverPolicy.required (failed e) = false
goes_on ObserverPolicy.optional (failed e) = true
goes_on policy (panicked e) = false

abbrev pub Observes : ObservationPhase → Infrastructure → Observer → Type 0
Observes phase infra o = goes_on o.policy (o.observe phase infra) ≡ true

observer_failed-goes_on :
    (clock : Clock) (phase : ObservationPhase) (infra : Infrastructure) (observers : List Observer)
    (base : List Evidence) (name : String) (policy : ObserverPolicy) (all : List Evidence)
    (e : String)
    → ((l : List Evidence)
        → observe_from clock phase infra observers l ≡ done base
        → All (Observes phase infra) observers)
    → observer_failed clock phase name policy all (observe_from clock phase infra observers) e
      ≡ done base
    → (goes_on policy (failed e) ≡ true) × All (Observes phase infra) observers
unfolding observer_failed
observer_failed-goes_on clock phase infra observers base name ObserverPolicy.required all e h d = cc
observer_failed-goes_on clock phase infra observers base name ObserverPolicy.optional all e h d =
    (refl, h _ d)

observed_one-goes_on :
    (clock : Clock) (phase : ObservationPhase) (infra : Infrastructure) (observers : List Observer)
    (base : List Evidence) (o : Observer) (all : List Evidence) (a : Attempt (List Evidence))
    → ((l : List Evidence)
        → observe_from clock phase infra observers l ≡ done base
        → All (Observes phase infra) observers)
    → observed_one clock phase o all (observe_from clock phase infra observers) a ≡ done base
    → (goes_on o.policy a ≡ true) × All (Observes phase infra) observers
unfolding observed_one
observed_one-goes_on clock phase infra observers base o all (done e) h d = (refl, h _ d)
observed_one-goes_on clock phase infra observers base o all (panicked e) h d = cc
observed_one-goes_on clock phase infra observers base o all (failed e) h d =
    observer_failed-goes_on clock phase infra observers base o.name o.policy all e h d

observe_from-Observes :
    (clock : Clock) (phase : ObservationPhase) (infra : Infrastructure) (observers : List Observer)
    (all base : List Evidence)
    → observe_from clock phase infra observers all ≡ done base
    → All (Observes phase infra) observers
unfolding observe_from
observe_from-Observes clock phase infra [] all base d = tt
observe_from-Observes clock phase infra (o ∷ observers) all base d =
    observed_one-goes_on clock phase infra observers base o all (o.observe phase infra)
      (λ l. observe_from-Observes clock phase infra observers l base) d

-- If the loop over the observers has a result, each of them lets the run go on.
pub observe_all-Observes :
    (clock : Clock) (phase : ObservationPhase) (infra : Infrastructure) (observers : List Observer)
    (base : List Evidence)
    → observe_all clock phase observers infra ≡ done base
    → All (Observes phase infra) observers
unfolding observe_all
observe_all-Observes clock phase infra observers base d =
    observe_from-Observes clock phase infra observers [] base d

-- What the validators do not change of a report.
abbrev pub kept : ValidationReport → Outcome × Measurement
kept r = (r.outcome, r.measurement)

-- The loop over the validators, on what one of them does.
validated_one-kept :
    (base post : List Evidence) (validators : List Validator) (r : ValidationReport) (passed : Bool)
    (c : Called ValidationResult)
    → ((s : ValidationReport) (p : Bool)
        → kept (validate_all base post validators s p).report ≡ kept s)
    → kept (validated_one r passed (validate_all base post validators) c).report ≡ kept r
unfolding validated_one add_result
validated_one-kept base post validators r passed (returned result) h =
    h (add_result r result) (if is_fail result.status then false else passed)
validated_one-kept base post validators r passed (panic e) h = refl

pub validate_all-kept :
    (base post : List Evidence) (validators : List Validator) (r : ValidationReport) (passed : Bool)
    → kept (validate_all base post validators r passed).report ≡ kept r
unfolding validate_all
validate_all-kept base post [] r passed = refl
validate_all-kept base post (v ∷ validators) r passed =
    validated_one-kept base post validators r passed (v.validate base post)
      (validate_all-kept base post validators)

-- No validator panicked, and all passed.
abbrev pub AllPassed : Validated → Type 0
AllPassed v = (v.crash ≡ none) × (v.all_passed ≡ true)

validated_one-passed :
    (base post : List Evidence) (validators : List Validator) (r : ValidationReport) (passed : Bool)
    (c : Called ValidationResult)
    → ((s : ValidationReport) (p : Bool)
        → AllPassed (validate_all base post validators s p)
        → (p ≡ true) × All (Accepts base post) validators)
    → AllPassed (validated_one r passed (validate_all base post validators) c)
    → (passed ≡ true) × (is_accepted c ≡ true) × All (Accepts base post) validators
unfolding validated_one
validated_one-passed base post validators r passed (returned result) h (quiet, all) =
    let rest =
      h (add_result r result) (if is_fail result.status then false else passed) (quiet, all) in
    (ground (arith, rest.0), ground (arith, rest.0), rest.1)
validated_one-passed base post validators r passed (panic e) h (quiet, all) = cc

-- If all passed, every validator accepts.
pub validate_all-passed :
    (base post : List Evidence) (validators : List Validator) (r : ValidationReport) (passed : Bool)
    → AllPassed (validate_all base post validators r passed)
    → (passed ≡ true) × All (Accepts base post) validators
unfolding validate_all
validate_all-passed base post [] r passed (quiet, all) = (all, tt)
validate_all-passed base post (v ∷ validators) r passed h =
    let (p, ok, rest) =
      validated_one-passed base post validators r passed (v.validate base post)
        (validate_all-passed base post validators) h in
    (p, (accepted (v.validate base post) ok, rest))

-- The criterion has a threshold, which is exceeded, and to exceed it is a failure.
abbrev fails_on : AcceptancePolicy → Bool
fails_on AcceptancePolicy.accept_warn = false
fails_on AcceptancePolicy.accept_fail = true

abbrev pub is_exceeded : ℕ → AcceptanceCriterion → Bool
is_exceeded actual c = not (c.threshold == 0) && ltb c.threshold actual && fails_on c.policy

exceeded-outcome :
    (show : ℕ → String) (name : String) (actual : ℕ) (c : AcceptanceCriterion)
    (p : AcceptancePolicy) (r : ValidationReport)
    → (exceeded show name actual c p r).outcome ≡ (if fails_on p then Outcome.failed else r.outcome)
unfolding exceeded
exceeded-outcome show name actual c AcceptancePolicy.accept_warn r = refl
exceeded-outcome show name actual c AcceptancePolicy.accept_fail r = refl

check_criterion-outcome :
    (show : ℕ → String) (name : String) (actual : ℕ) (c : AcceptanceCriterion)
    (r : ValidationReport)
    → (check_criterion show name actual c r).outcome
      ≡ (if is_exceeded actual c then Outcome.failed else r.outcome)
unfolding check_criterion
check_criterion-outcome show name actual c r =
    ground (arith, exceeded-outcome show name actual c c.policy r)

-- The acceptance criteria only ever make the outcome a failure.
pub evaluate_acceptance-outcome :
    (show : ℕ → String) (r : ValidationReport) (ac : AcceptanceCriteria)
    → (evaluate_acceptance show r ac).outcome ≡ (
        if is_exceeded r.measurement.tick_p95 ac.tick_p95
        then Outcome.failed
        else if is_exceeded r.measurement.recovery_duration ac.recovery_duration
        then Outcome.failed
        else r.outcome)
unfolding evaluate_acceptance
evaluate_acceptance-outcome show r ac = ground (
  arith,
  check_criterion-outcome show "tick-p95" r.measurement.tick_p95 ac.tick_p95 (
      check_criterion show "recovery-duration" r.measurement.recovery_duration ac.recovery_duration
        r),
  check_criterion-outcome show "recovery-duration" r.measurement.recovery_duration
      ac.recovery_duration r,
)
