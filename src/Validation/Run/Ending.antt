-- ===== src/Validation/Run/Ending.antt =====
-- internal/validation/runner.go: the part of a passed run after the recovery.
use spatial_server.Base.{
  ℕ, ◌≡◌, refl, sym, ◌∙◌, ap, Bool, true, false, inl, inr, Option, none, some, List, [], ◌∷◌, ◌++◌,
  if◌then◌else◌, String, string_key, nat_key, arith, All, ◌⊎◌,
}
use spatial_server.Validation.Scenario.{Infrastructure, ObservationPhase, Evidence}
use spatial_server.Validation.Report.{ValidationReport, Outcome}
use spatial_server.Validation.Runner.{
  Attempt, done, failed, panicked, Called, returned, panic, ScenarioDefinition, Clock, observe_all,
  validate_all, evaluate_acceptance,
}
use spatial_server.Validation.Runner.Passes.{
  Accepts, is_exceeded, validate_all-kept, validate_all-passed, evaluate_acceptance-outcome,
}
use spatial_server.Validation.Run.{
  Action, Execution, is_unset, left, left_with, crashed, dropped, generated, judged_by, reported_by,
  decided, validated, observed_post, observe_post,
}

-- The body reached a `return`, nothing panicked, and the outcome is that of success.
abbrev pub Passed : Execution → Type 0
Passed x = (x.finished ≡ true) × (x.crash ≡ none) × (x.report.outcome ≡ Outcome.passed)

generated-Passed :
    (r : ValidationReport) (log : List Action) (c : Called Unit)
    → Passed (generated r log c)
    → r.outcome ≡ Outcome.passed
unfolding generated left crashed
generated-Passed r log (returned _) h = h.2
generated-Passed r log (panic e) h = cc

reported_by-Passed :
    (r : ValidationReport) (log : List Action) (g : Option (ValidationReport → Attempt Unit))
    → Passed (reported_by r log g)
    → r.outcome ≡ Outcome.passed
unfolding reported_by left
reported_by-Passed r log none h = h.2
reported_by-Passed r log (some generate) h =
    generated-Passed r (log ++ Action.reported ∷ []) (dropped (generate r)) h

unset_of : (o : Outcome) → is_unset o ≡ true → o ≡ Outcome.unset
unfolding is_unset
unset_of Outcome.unset h = refl
unset_of Outcome.passed h = cc
unset_of Outcome.failed h = cc
unset_of Outcome.skipped h = cc
unset_of Outcome.timed_out h = cc
unset_of Outcome.error h = cc

decided-outcome :
    (r : ValidationReport) (passed : Bool)
    → (decided r passed).outcome ≡ (
        if is_unset r.outcome then if passed then Outcome.passed else Outcome.failed else r.outcome)
unfolding decided
decided-outcome r passed = ground arith

decided-measurement :
    (r : ValidationReport) (passed : Bool) → (decided r passed).measurement ≡ r.measurement
unfolding decided
decided-measurement r passed = ground arith

-- An outcome of success is that of the validators, or was there before.
decided_of :
    (u passed : Bool) (o : Outcome)
    → (if u then if passed then Outcome.passed else Outcome.failed else o) ≡ Outcome.passed
    → ((u ≡ true) × (passed ≡ true)) ⊎ (o ≡ Outcome.passed)
decided_of true true o h = inl (refl, refl)
decided_of true false o h = cc
decided_of false passed o h = inr h

decided-Passed :
    (r : ValidationReport) (passed : Bool)
    → (decided r passed).outcome ≡ Outcome.passed
    → ((r.outcome ≡ Outcome.unset) × (passed ≡ true)) ⊎ (r.outcome ≡ Outcome.passed)
decided-Passed r passed h =
    elim (decided_of (is_unset r.outcome) passed r.outcome (sym (decided-outcome r passed) ∙ h)) [
      | inl (u, p) ↦ inl (unset_of r.outcome u, p)
      | inr e ↦ inr e
    ]

-- The acceptance criteria let an outcome of success stand only if none is exceeded.
not_exceeded :
    (a b : Bool) (o : Outcome)
    → (if a then Outcome.failed else if b then Outcome.failed else o) ≡ Outcome.passed
    → (b ≡ false) × (o ≡ Outcome.passed)
not_exceeded true b o h = cc
not_exceeded false true o h = cc
not_exceeded false false o h = (refl, h)

abbrev pub slow : ScenarioDefinition → ValidationReport → Bool
slow sc r = is_exceeded r.measurement.recovery_duration sc.acceptance.recovery_duration

judged_by-Passed :
    (show : ℕ → String) (sc : ScenarioDefinition) (log : List Action) (r : ValidationReport)
    (passed : Bool) (c : Option String)
    → Passed (judged_by show sc log r passed c)
    → (c ≡ none)
      × (slow sc r ≡ false)
      × (((r.outcome ≡ Outcome.unset) × (passed ≡ true)) ⊎ (r.outcome ≡ Outcome.passed))
unfolding judged_by crashed
judged_by-Passed show sc log r passed (some e) h = cc
judged_by-Passed show sc log r passed none h =
    let d = decided r passed in
    let ok = reported_by-Passed (evaluate_acceptance show d sc.acceptance) log sc.reporter h in
    let (fast, o) =
      not_exceeded (is_exceeded d.measurement.tick_p95 sc.acceptance.tick_p95) (slow sc d) d.outcome
        (sym (evaluate_acceptance-outcome show d sc.acceptance) ∙ ok) in
    (
      refl,
      ap (λ m. is_exceeded m.recovery_duration sc.acceptance.recovery_duration)
            (sym (decided-measurement r passed))
          ∙ fast,
      decided-Passed r passed o,
    )

-- The second half of a run that passed: the observation after the recovery, the validators and the
-- time of the recovery.
abbrev pub EndsWell :
    Clock → ScenarioDefinition → Infrastructure → List Evidence → ValidationReport → Type 0
EndsWell clock sc infra base r =
    (post : List Evidence) × (observe_all clock ObservationPhase.post_recovery sc.observers infra
      ≡ done post)
    × All (Accepts base post) sc.validators
    × (slow sc r ≡ false)

observed_post-Passed :
    (clock : Clock) (show : ℕ → String) (sc : ScenarioDefinition) (infra : Infrastructure)
    (base : List Evidence) (r : ValidationReport) (log : List Action) (a : Attempt (List Evidence))
    → observe_all clock ObservationPhase.post_recovery sc.observers infra ≡ a
    → ¬ (r.outcome ≡ Outcome.passed)
    → Passed (observed_post show sc base r log a)
    → (r.outcome ≡ Outcome.unset) × EndsWell clock sc infra base r
unfolding observed_post left_with left crashed validated
observed_post-Passed clock show sc infra base r log (failed e) seen ne h = cc
observed_post-Passed clock show sc infra base r log (panicked e) seen ne h = cc
observed_post-Passed clock show sc infra base r log (done post) seen ne h =
    let start = record r { post_recovery = post } in
    let v = validate_all base post sc.validators start true in
    let same = validate_all-kept base post sc.validators start true in
    let (quiet, fast, why) =
      judged_by-Passed show sc (log ++ Action.judged ∷ []) v.report v.all_passed v.crash h in
    elim why [
      | inl (u, all) ↦ (
        sym (ap (λ k. k.0) same) ∙ u,
        (
          post,
          seen,
          (validate_all-passed base post sc.validators start true (quiet, all)).1,
          ap (λ k. is_exceeded k.1.recovery_duration sc.acceptance.recovery_duration) (sym same)
              ∙ fast,
        ),
      )
      | inr e ↦ absurd (ne (sym (ap (λ k. k.0) same) ∙ e))
    ]

pub observe_post-Passed :
    (clock : Clock) (show : ℕ → String) (sc : ScenarioDefinition) (infra : Infrastructure)
    (base : List Evidence) (r : ValidationReport) (log : List Action)
    → ¬ (r.outcome ≡ Outcome.passed)
    → Passed (observe_post clock show sc infra base r log)
    → (r.outcome ≡ Outcome.unset) × EndsWell clock sc infra base r
unfolding observe_post
observe_post-Passed clock show sc infra base r log ne h =
    observed_post-Passed clock show sc infra base r
      (log ++ Action.observed ObservationPhase.post_recovery ∷ [])
      (observe_all clock ObservationPhase.post_recovery sc.observers infra) refl ne h
