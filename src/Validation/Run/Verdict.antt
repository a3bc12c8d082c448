-- ===== src/Validation/Run/Verdict.antt =====
-- internal/validation/runner.go: what a passed run means.
use spatial_server.Base.{
  ℕ, ◌≡◌, refl, sym, ◌∙◌, ap, Bool, true, false, Option, none, some, some-injective, List, [], ◌∷◌,
  ◌++◌, if◌then◌else◌, String, string_key, nat_key, All,
}
use spatial_server.Validation.Scenario.{
  Infrastructure, ObservationPhase, Evidence, check_requirements,
}
use spatial_server.Validation.Scenario.Checks.{all_met, check_requirements-met}
use spatial_server.Validation.Report.{ValidationReport, Outcome}
use spatial_server.Validation.Runner.{
  Attempt, done, failed, panicked, Called, returned, panic, ScenarioDefinition, Clock, observe_all,
}
use spatial_server.Validation.Runner.Passes.{Accepts, Observes, observe_all-Observes, is_exceeded}
use spatial_server.Validation.Run.Ending.{Passed, EndsWell, observe_post-Passed}
use spatial_server.Validation.Run.{
  Action, Execution, left, left_with, crashed, crash_of, dropped, deferred, late, recovered_by,
  injected_by, observed_base, checked, began, first_report, execute, caught, run,
}

abbrev after_wait : ValidationReport → ℕ → ValidationReport
after_wait r took = record r { measurement = record r.measurement { recovery_duration = took } }

late_not_passed :
    (b : Bool) (e : String) (r : ValidationReport)
    → ¬ ((late b e r).outcome ≡ Outcome.passed) × ¬ ((late b e r).outcome ≡ Outcome.unset)
unfolding late
late_not_passed true e r = (λ h. cc, λ h. cc)
late_not_passed false e r = (λ h. cc, λ h. cc)

recovered_by-Passed :
    (clock : Clock) (show : ℕ → String) (sc : ScenarioDefinition) (infra : Infrastructure)
    (base : List Evidence) (r : ValidationReport) (log : List Action) (a : Attempt Unit) (b : Bool)
    (took : ℕ)
    → r.outcome ≡ Outcome.unset
    → Passed (
        recovered_by clock show sc infra base r log
          (record { ended = a; deadline_exceeded = b; took = took }))
    → (a ≡ done tt) × EndsWell clock sc infra base (after_wait r took)
unfolding recovered_by crashed
recovered_by-Passed clock show sc infra base r log (done _) b took u h =
    (refl, (observe_post-Passed clock show sc infra base (after_wait r took) log (λ p. cc) h).1)
recovered_by-Passed clock show sc infra base r log (failed e) b took u h =
    let (not_passed, not_unset) = late_not_passed b e (after_wait r took) in
    absurd (
      not_unset
        (observe_post-Passed clock show sc infra base (late b e (after_wait r took)) log not_passed
          h).0)
recovered_by-Passed clock show sc infra base r log (panicked e) b took u h = cc

injected_by-Passed :
    (clock : Clock) (show : ℕ → String) (sc : ScenarioDefinition) (infra : Infrastructure)
    (base : List Evidence) (r : ValidationReport) (log : List Action) (a : Attempt Unit)
    → r.outcome ≡ Outcome.unset
    → Passed (injected_by clock show sc infra base r log a)
    → (a ≡ done tt)
      × ((sc.recovery infra).ended ≡ done tt)
      × EndsWell clock sc infra base (after_wait r (sc.recovery infra).took)
unfolding injected_by left_with left crashed
injected_by-Passed clock show sc infra base r log (failed e) u h = cc
injected_by-Passed clock show sc infra base r log (panicked e) u h = cc
injected_by-Passed clock show sc infra base r log (done _) u h =
    let w = sc.recovery infra in
    let (healed, ends) =
      recovered_by-Passed clock show sc infra base r (log ++ Action.waited ∷ []) w.ended
        w.deadline_exceeded w.took u h in
    (refl, healed, ends)

-- A deferred call that leaves no panic made none.
deferred-Passed :
    (a : Action) (c : Called Unit) (x : Execution)
    → Passed (deferred a c x)
    → (c ≡ returned tt) × Passed x
unfolding deferred crash_of
deferred-Passed a (returned _) x h = (refl, h)
deferred-Passed a (panic e) x h = cc

-- The call returned, with an error or without.
abbrev pub DoesNotPanic : Attempt Unit → Type 0
DoesNotPanic (done _) = Unit
DoesNotPanic (failed e) = Unit
DoesNotPanic (panicked e) = ⊥

dropped-DoesNotPanic : (a : Attempt Unit) → dropped a ≡ returned tt → DoesNotPanic a
unfolding dropped
dropped-DoesNotPanic (done _) h = tt
dropped-DoesNotPanic (failed e) h = tt
dropped-DoesNotPanic (panicked e) h = cc

-- What a run that passed went through.
abbrev pub WentWell : Clock → ScenarioDefinition → Type 0
WentWell clock sc =
    (infra : Infrastructure) × (base : List Evidence) × (post : List Evidence) × (sc.setup
      ≡ done (infra, returned tt))
    × (all_met infra sc.metadata.requirements ≡ true)
    × (observe_all clock ObservationPhase.baseline sc.observers infra ≡ done base)
    × All (Observes ObservationPhase.baseline infra) sc.observers
    × (sc.injector.inject infra ≡ done tt)
    × ((sc.recovery infra).ended ≡ done tt)
    × (observe_all clock ObservationPhase.post_recovery sc.observers infra ≡ done post)
    × All (Observes ObservationPhase.post_recovery infra) sc.observers
    × All (Accepts base post) sc.validators
    × (is_exceeded (sc.recovery infra).took sc.acceptance.recovery_duration ≡ false)
    × DoesNotPanic (sc.injector.recover infra)

observed_base-Passed :
    (clock : Clock) (show : ℕ → String) (sc : ScenarioDefinition) (infra : Infrastructure)
    (r : ValidationReport) (log : List Action) (a : Attempt (List Evidence))
    → sc.setup ≡ done (infra, returned tt)
    → (check_requirements infra sc.metadata.requirements).0 ≡ true
    → observe_all clock ObservationPhase.baseline sc.observers infra ≡ a
    → r.outcome ≡ Outcome.unset
    → Passed (observed_base clock show sc infra r log a)
    → WentWell clock sc
unfolding observed_base left_with left crashed
observed_base-Passed clock show sc infra r log (failed e) set met seen u h = cc
observed_base-Passed clock show sc infra r log (panicked e) set met seen u h = cc
observed_base-Passed clock show sc infra r log (done base) set met seen u h =
    let s = record r { baseline = base } in
    let hit = sc.injector.inject infra in
    let x = injected_by clock show sc infra base s (log ++ Action.injected ∷ []) hit in
    let (undone, inner) =
      deferred-Passed Action.recovered (dropped (sc.injector.recover infra)) x h in
    let (done_so, healed, (post, again, good, fast)) =
      injected_by-Passed clock show sc infra base s (log ++ Action.injected ∷ []) hit u inner in
    (
      infra,
      base,
      post,
      set,
      sym (check_requirements-met infra sc.metadata.requirements) ∙ met,
      seen,
      observe_all-Observes clock ObservationPhase.baseline infra sc.observers base seen,
      done_so,
      healed,
      again,
      observe_all-Observes clock ObservationPhase.post_recovery infra sc.observers post again,
      good,
      fast,
      dropped-DoesNotPanic (sc.injector.recover infra) undone,
    )

checked-Passed :
    (clock : Clock) (show : ℕ → String) (sc : ScenarioDefinition) (infra : Infrastructure)
    (r : ValidationReport) (met : Bool) (reason : String)
    → sc.setup ≡ done (infra, returned tt)
    → (check_requirements infra sc.metadata.requirements).0 ≡ met
    → r.outcome ≡ Outcome.unset
    → Passed (checked clock show sc infra r (met, reason))
    → WentWell clock sc
unfolding checked left_with left
checked-Passed clock show sc infra r false reason set met u h = cc
checked-Passed clock show sc infra r true reason set met u h =
    observed_base-Passed clock show sc infra r
      (Action.set_up ∷ Action.observed ObservationPhase.baseline ∷ [])
      (observe_all clock ObservationPhase.baseline sc.observers infra) set met refl u h

began-Passed :
    (clock : Clock) (show : ℕ → String) (sc : ScenarioDefinition) (r : ValidationReport)
    (a : Attempt (Infrastructure × Called Unit))
    → sc.setup ≡ a
    → r.outcome ≡ Outcome.unset
    → Passed (began clock show sc r a)
    → WentWell clock sc
unfolding began left_with left crashed
began-Passed clock show sc r (failed e) set u h = cc
began-Passed clock show sc r (panicked e) set u h = cc
began-Passed clock show sc r (done (infra, teardown)) set u h =
    let met = check_requirements infra sc.metadata.requirements in
    let (torn, inner) =
      deferred-Passed Action.tore_down teardown (checked clock show sc infra r met) h in
    checked-Passed clock show sc infra r met.0 met.1 (set ∙ ap (λ t. done (infra, t)) torn) refl u
      inner

-- The result of `Run`, by how its body was left.
result_passed :
    (report : ValidationReport) (finished : Bool) (crash : Option String) (total : ℕ)
    (r : ValidationReport)
    → (if finished then some (record (caught report crash) { duration = total }) else none) ≡ some r
    → r.outcome ≡ Outcome.passed
    → (finished ≡ true) × (crash ≡ none) × (report.outcome ≡ Outcome.passed)
unfolding caught
result_passed report false crash total r h o = cc
result_passed report true none total r h o =
    let same = some-injective (record report { duration = total }) r h in
    (refl, refl, ap (λ r. r.outcome) same ∙ o)
result_passed report true (some e) total r h o =
    let out = record (caught report (some e)) { duration = total } in
    let same : Outcome.error ≡ Outcome.passed = ap (λ r. r.outcome) (some-injective out r h) ∙ o in
    cc

-- If `Run` returns a report with the outcome "passed", then the setup succeeded and the requirements
-- were met; before the injection and after the recovery every observer returned its evidence, or an
-- error if it is optional; the injection and the wait for the recovery succeeded; every validator
-- returned a result other than a failure on what was observed; the recovery did not exceed a
-- threshold whose policy is to fail; and the deferred recovery and teardown did not panic. Nothing
-- is said of an error that the deferred recovery or the reporter returns.
pub passed_run :
    (clock : Clock) (show : ℕ → String) (sc : ScenarioDefinition) (r : ValidationReport)
    → run clock show sc ≡ some r
    → r.outcome ≡ Outcome.passed
    → WentWell clock sc
unfolding run execute first_report
passed_run clock show sc r h o =
    let x = execute clock show sc in
    began-Passed clock show sc (first_report clock sc.metadata) sc.setup refl refl
      (result_passed x.report x.finished x.crash clock.total r h o)
