-- ===== src/Validation/Report.antt =====
-- internal/validation/report.go: the report on a run, and the summary of many.
pub mod Statistics
pub mod Summary
use spatial_server.Base.{
  ℕ, ◌+◌, ◌/◌, Bool, true, false, Option, none, some, List, [], ◌∷◌, ◌++◌, if◌then◌else◌, ltb,
  length, String,
}
use spatial_server.Base.Text.{◌<>◌}
use spatial_server.Validation.Scenario.{
  ScenarioMetadata, Evidence, ValidationResult, ValidationStatus,
}

abbrev pub framework_version : String
framework_version = "1.0.0"

pub record FrameworkMeta : Type 0 where
  pub version : String
  pub scenario_version : String
  pub exec_timestamp : ℕ

-- `unset` is the empty string, the zero value.
pub data Outcome : Type 0 where
  unset passed failed skipped timed_out error : Outcome

-- The fields of `Measurement` that the package reads: `Recovery.Duration` and `Tick.P95`.
pub record Measurement : Type 0 where
  pub recovery_duration : ℕ
  pub tick_p95 : ℕ

pub record ValidationReport : Type 0 where
  pub framework : FrameworkMeta
  pub scenario : ScenarioMetadata
  pub outcome : Outcome
  pub duration : ℕ
  pub baseline : List Evidence
  pub post_recovery : List Evidence
  pub validations : List ValidationResult
  pub measurement : Measurement
  pub root_cause : String

-- The counters of the outcomes in `SummaryReport`.
pub record Outcomes : Type 0 where
  pub total : ℕ
  pub passed : ℕ
  pub failed : ℕ
  pub skipped : ℕ
  pub timed_out : ℕ
  pub errors : ℕ

-- `Recovery` of `SummaryReport`.
pub record RecoveryTimes : Type 0 where
  pub count : ℕ
  pub min_duration : ℕ
  pub max_duration : ℕ
  pub mean_duration : ℕ

-- `Invariants` of `SummaryReport`.
pub record Invariants : Type 0 where
  pub total : ℕ
  pub passed : ℕ
  pub warned : ℕ
  pub failed : ℕ
  pub skipped : ℕ

pub record SummaryEntry : Type 0 where
  pub name : String
  pub outcome : Outcome
  pub duration : ℕ
  pub reason : String

pub record SummaryReport : Type 0 where
  pub framework : FrameworkMeta
  pub outcomes : Outcomes
  pub total_duration : ℕ
  pub recovery : RecoveryTimes
  pub invariants : Invariants
  pub scenarios : List SummaryEntry

-- The switch on the outcome of a report.
counted : Outcome → Outcomes → Outcomes
counted Outcome.unset c = record c { total = c.total + 1 }
counted Outcome.passed c = record c { total = c.total + 1; passed = c.passed + 1 }
counted Outcome.failed c = record c { total = c.total + 1; failed = c.failed + 1 }
counted Outcome.skipped c = record c { total = c.total + 1; skipped = c.skipped + 1 }
counted Outcome.timed_out c = record c { total = c.total + 1; timed_out = c.timed_out + 1 }
counted Outcome.error c = record c { total = c.total + 1; errors = c.errors + 1 }

-- The switch on the status of a validation.
judged : ValidationStatus → Invariants → Invariants
judged ValidationStatus.pass c = record c { total = c.total + 1; passed = c.passed + 1 }
judged ValidationStatus.warn c = record c { total = c.total + 1; warned = c.warned + 1 }
judged ValidationStatus.fail c = record c { total = c.total + 1; failed = c.failed + 1 }
judged ValidationStatus.skip c = record c { total = c.total + 1; skipped = c.skipped + 1 }

judged_all : List ValidationResult → Invariants → Invariants
unfolding judged
judged_all [] c = c
judged_all (v ∷ vs) c = judged_all vs (judged v.status c)

-- The loop over the reports, on the summary and the durations of the recoveries so far.
add_report : ValidationReport → SummaryReport → SummaryReport
unfolding counted judged_all
add_report r s = record s {
  outcomes = counted r.outcome s.outcomes;
  total_duration = s.total_duration + r.duration;
  invariants = judged_all r.validations s.invariants;
  scenarios =
      s.scenarios
      ++ record {
        name = r.scenario.name;
        outcome = r.outcome;
        duration = r.duration;
        reason = r.root_cause;
      }
        ∷ [];
}

add_duration : ValidationReport → List ℕ → List ℕ
add_duration r ds =
    if ltb 0 r.measurement.recovery_duration then ds ++ r.measurement.recovery_duration ∷ [] else ds

add_reports : List ValidationReport → SummaryReport → List ℕ → SummaryReport × List ℕ
unfolding add_report add_duration
add_reports [] s ds = (s, ds)
add_reports (r ∷ reports) s ds = add_reports reports (add_report r s) (add_duration r ds)

unfoldable pub total_of : List ℕ → ℕ
total_of [] = 0
total_of (d ∷ ds) = d + total_of ds

unfoldable pub least_of : ℕ → List ℕ → ℕ
least_of m [] = m
least_of m (d ∷ ds) = least_of (if ltb d m then d else m) ds

unfoldable pub greatest_of : ℕ → List ℕ → ℕ
greatest_of m [] = m
greatest_of m (d ∷ ds) = greatest_of (if ltb m d then d else m) ds

-- The statistics of the durations; without any they stay zero.
unfoldable pub recovery_times : List ℕ → RecoveryTimes
unfolding total_of least_of greatest_of
recovery_times [] = record { count = 0; min_duration = 0; max_duration = 0; mean_duration = 0 }
recovery_times (d ∷ ds) = record {
  count = length (d ∷ ds);
  min_duration = least_of d (d ∷ ds);
  max_duration = greatest_of d (d ∷ ds);
  mean_duration = total_of (d ∷ ds) / length (d ∷ ds);
}

empty_summary : ℕ → SummaryReport
unfolding recovery_times
empty_summary now = record {
  framework = record { version = framework_version; scenario_version = ""; exec_timestamp = now };
  outcomes = record { total = 0; passed = 0; failed = 0; skipped = 0; timed_out = 0; errors = 0 };
  total_duration = 0;
  recovery = recovery_times [];
  invariants = record { total = 0; passed = 0; warned = 0; failed = 0; skipped = 0 };
  scenarios = [];
}

unfoldable pub new_summary : ℕ → List ValidationReport → SummaryReport
unfolding add_reports empty_summary recovery_times
new_summary now reports =
    let r = add_reports reports (empty_summary now) [] in
    record r.0 { recovery = recovery_times r.1 }
