-- ===== src/Validation/Report/Summary.antt =====
-- internal/validation/report.go: what the numbers of a summary are.
use spatial_server.Base.{
  ℕ, ◌+◌, ◌≡◌, refl, sym, subst, ◌∙◌, Bool, true, false, nat_key, ◌++◌, List, [], ◌∷◌,
  if◌then◌else◌, ltb, length, arith, Key, ◌==◌,
}
use mathlib.Core.List.{append_assoc, append-nil}
use spatial_server.Validation.Scenario.{ValidationResult, ValidationStatus}
use spatial_server.Validation.Report.{
  Outcome, Outcomes, Invariants, ValidationReport, SummaryReport, counted, judged, judged_all,
  add_report, add_duration, add_reports, recovery_times, empty_summary, new_summary,
}
use spatial_server.Validation.Report.Statistics.{IsStatistics, recovery_times-IsStatistics}

unfoldable pub Outcome-discrete : Discrete Outcome
Outcome-discrete = hlevel

instance abbrev pub outcome_key : Key Outcome
outcome_key = record { dec = Outcome-discrete }

-- The number of the reports with an outcome.
abbrev pub count : Outcome → List ValidationReport → ℕ
count o [] = 0
count o (r ∷ reports) = (if r.outcome == o then 1 else 0) + count o reports

-- Every counter of an outcome has grown by the number of the reports with that outcome.
abbrev pub IsCounted : Outcomes → Outcomes → (Outcome → ℕ) → ℕ → Type 0
IsCounted before after f n =
    (after.total ≡ before.total + n)
    × (after.passed ≡ before.passed + f Outcome.passed)
    × (after.failed ≡ before.failed + f Outcome.failed)
    × (after.skipped ≡ before.skipped + f Outcome.skipped)
    × (after.timed_out ≡ before.timed_out + f Outcome.timed_out)
    × (after.errors ≡ before.errors + f Outcome.error)

counted-IsCounted :
    (o : Outcome) (c : Outcomes) → IsCounted c (counted o c) (λ p. if o == p then 1 else 0) 1
unfolding counted Outcome-discrete
counted-IsCounted Outcome.unset c =
    (refl, omega arith, omega arith, omega arith, omega arith, omega arith)
counted-IsCounted Outcome.passed c =
    (refl, refl, omega arith, omega arith, omega arith, omega arith)
counted-IsCounted Outcome.failed c =
    (refl, omega arith, refl, omega arith, omega arith, omega arith)
counted-IsCounted Outcome.skipped c =
    (refl, omega arith, omega arith, refl, omega arith, omega arith)
counted-IsCounted Outcome.timed_out c =
    (refl, omega arith, omega arith, omega arith, refl, omega arith)
counted-IsCounted Outcome.error c = (refl, omega arith, omega arith, omega arith, omega arith, refl)

add_reports-IsCounted :
    (reports : List ValidationReport) (s : SummaryReport) (ds : List ℕ)
    → IsCounted s.outcomes
        (add_reports reports s ds).0.outcomes
        (λ o. count o reports)
        (length reports)
unfolding add_reports add_report
add_reports-IsCounted [] s ds =
    (omega arith, omega arith, omega arith, omega arith, omega arith, omega arith)
add_reports-IsCounted (r ∷ reports) s ds =
    let rest = add_reports-IsCounted reports (add_report r s) (add_duration r ds) in
    let one = counted-IsCounted r.outcome s.outcomes in
    (
      ground (arith, rest.0, one.0),
      ground (arith, rest.1, one.1),
      ground (arith, rest.2, one.2),
      ground (arith, rest.3, one.3),
      ground (arith, rest.4, one.4),
      ground (arith, rest.5, one.5),
    )

unfoldable pub ValidationStatus-discrete : Discrete ValidationStatus
ValidationStatus-discrete = hlevel

instance abbrev pub validation_status_key : Key ValidationStatus
validation_status_key = record { dec = ValidationStatus-discrete }

-- The number of the validations with a status.
abbrev verdicts : ValidationStatus → List ValidationResult → ℕ
verdicts st [] = 0
verdicts st (v ∷ vs) = (if v.status == st then 1 else 0) + verdicts st vs

abbrev pub verdicts_in : ValidationStatus → List ValidationReport → ℕ
verdicts_in st [] = 0
verdicts_in st (r ∷ reports) = verdicts st r.validations + verdicts_in st reports

abbrev pub validations_in : List ValidationReport → ℕ
validations_in [] = 0
validations_in (r ∷ reports) = length r.validations + validations_in reports

-- Every counter of a status has grown by the number of the validations with that status.
abbrev pub IsJudged : Invariants → Invariants → (ValidationStatus → ℕ) → ℕ → Type 0
IsJudged before after f n =
    (after.total ≡ before.total + n)
    × (after.passed ≡ before.passed + f ValidationStatus.pass)
    × (after.warned ≡ before.warned + f ValidationStatus.warn)
    × (after.failed ≡ before.failed + f ValidationStatus.fail)
    × (after.skipped ≡ before.skipped + f ValidationStatus.skip)

judged-IsJudged :
    (v : ValidationStatus) (c : Invariants)
    → IsJudged c (judged v c) (λ st. if v == st then 1 else 0) 1
unfolding judged ValidationStatus-discrete
judged-IsJudged ValidationStatus.pass c = (refl, refl, omega arith, omega arith, omega arith)
judged-IsJudged ValidationStatus.warn c = (refl, omega arith, refl, omega arith, omega arith)
judged-IsJudged ValidationStatus.fail c = (refl, omega arith, omega arith, refl, omega arith)
judged-IsJudged ValidationStatus.skip c = (refl, omega arith, omega arith, omega arith, refl)

-- Two steps, one after the other.
IsJudged-trans :
    (a b c : Invariants) (f g : ValidationStatus → ℕ) (n m : ℕ)
    → IsJudged a b f n
    → IsJudged b c g m
    → IsJudged a c (λ st. f st + g st) (n + m)
IsJudged-trans a b c f g n m h k = (
  omega (arith, h.0, k.0),
  omega (arith, h.1, k.1),
  omega (arith, h.2, k.2),
  omega (arith, h.3, k.3),
  omega (arith, h.4, k.4),
)

IsJudged-none : (c : Invariants) → IsJudged c c (λ st. 0) 0
IsJudged-none c = (omega arith, omega arith, omega arith, omega arith, omega arith)

judged_all-IsJudged :
    (vs : List ValidationResult) (c : Invariants)
    → IsJudged c (judged_all vs c) (λ st. verdicts st vs) (length vs)
unfolding judged_all
judged_all-IsJudged [] c = IsJudged-none c
judged_all-IsJudged (v ∷ vs) c =
    let both =
      IsJudged-trans c (judged v.status c) (judged_all vs (judged v.status c))
        (λ st. if v.status == st then 1 else 0) (λ st. verdicts st vs) 1 (length vs)
        (judged-IsJudged v.status c) (judged_all-IsJudged vs (judged v.status c)) in
    (omega (arith, both.0), both.1, both.2, both.3, both.4)

add_reports-IsJudged :
    (reports : List ValidationReport) (s : SummaryReport) (ds : List ℕ)
    → IsJudged s.invariants
        (add_reports reports s ds).0.invariants
        (λ st. verdicts_in st reports)
        (validations_in reports)
unfolding add_reports add_report
add_reports-IsJudged [] s ds = IsJudged-none s.invariants
add_reports-IsJudged (r ∷ reports) s ds =
    IsJudged-trans s.invariants (judged_all r.validations s.invariants)
      (add_reports reports (add_report r s) (add_duration r ds)).0.invariants
      (λ st. verdicts st r.validations) (λ st. verdicts_in st reports) (length r.validations)
      (validations_in reports) (judged_all-IsJudged r.validations s.invariants)
      (add_reports-IsJudged reports (add_report r s) (add_duration r ds))

-- The sum of the durations of the reports.
abbrev pub time_of : List ValidationReport → ℕ
time_of [] = 0
time_of (r ∷ reports) = r.duration + time_of reports

add_reports-time :
    (reports : List ValidationReport) (s : SummaryReport) (ds : List ℕ)
    → (add_reports reports s ds).0.total_duration ≡ s.total_duration + time_of reports
unfolding add_reports add_report
add_reports-time [] s ds = omega arith
add_reports-time (r ∷ reports) s ds =
    omega (arith, add_reports-time reports (add_report r s) (add_duration r ds))

-- The times of the recoveries that took any.
abbrev pub recoveries : List ValidationReport → List ℕ
recoveries [] = []
recoveries (r ∷ reports) =
    if ltb 0 r.measurement.recovery_duration
    then r.measurement.recovery_duration ∷ recoveries reports
    else recoveries reports

one_more :
    (b : Bool) (d : ℕ) (ds rest : List ℕ)
    → (if b then ds ++ d ∷ [] else ds) ++ rest ≡ ds ++ (if b then d ∷ rest else rest)
one_more true d ds rest = append_assoc ds (d ∷ []) rest
one_more false d ds rest = refl

add_reports-recoveries :
    (reports : List ValidationReport) (s : SummaryReport) (ds : List ℕ)
    → (add_reports reports s ds).1 ≡ ds ++ recoveries reports
unfolding add_reports add_duration
add_reports-recoveries [] s ds = sym (append-nil ds)
add_reports-recoveries (r ∷ reports) s ds =
    add_reports-recoveries reports (add_report r s) (add_duration r ds)
    ∙ one_more (ltb 0 r.measurement.recovery_duration) r.measurement.recovery_duration ds
        (recoveries reports)

-- In a summary, the total of the reports is their number, each counter of an outcome is the number of
-- the reports with that outcome, and the total duration is the sum of theirs; the total of the
-- validations is the number of those in the reports, and each counter of a status is the number of
-- the validations with that status; the statistics of the recoveries are those of the recovery times
-- that are not zero: their number, the least, the greatest, and the sum divided by the number, or all
-- zero if there are none.
pub summary_adds_up :
    (now : ℕ) (reports : List ValidationReport)
    → let s = new_summary now reports in
      (s.outcomes.total ≡ length reports)
      × (s.outcomes.passed ≡ count Outcome.passed reports)
      × (s.outcomes.failed ≡ count Outcome.failed reports)
      × (s.outcomes.skipped ≡ count Outcome.skipped reports)
      × (s.outcomes.timed_out ≡ count Outcome.timed_out reports)
      × (s.outcomes.errors ≡ count Outcome.error reports)
      × (s.total_duration ≡ time_of reports)
      × (s.invariants.total ≡ validations_in reports)
      × (s.invariants.passed ≡ verdicts_in ValidationStatus.pass reports)
      × (s.invariants.warned ≡ verdicts_in ValidationStatus.warn reports)
      × (s.invariants.failed ≡ verdicts_in ValidationStatus.fail reports)
      × (s.invariants.skipped ≡ verdicts_in ValidationStatus.skip reports)
      × IsStatistics (recoveries reports) s.recovery
unfolding new_summary empty_summary
summary_adds_up now reports =
    let start = empty_summary now in
    let c = add_reports-IsCounted reports start [] in
    let v = add_reports-IsJudged reports start [] in
    (
      ground (arith, c.0),
      ground (arith, c.1),
      ground (arith, c.2),
      ground (arith, c.3),
      ground (arith, c.4),
      ground (arith, c.5),
      ground (arith, add_reports-time reports start []),
      ground (arith, v.0),
      ground (arith, v.1),
      ground (arith, v.2),
      ground (arith, v.3),
      ground (arith, v.4),
      subst (λ ds. IsStatistics ds (recovery_times (add_reports reports start []).1))
          (add_reports-recoveries reports start [])
          (recovery_times-IsStatistics (add_reports reports start []).1),
    )
