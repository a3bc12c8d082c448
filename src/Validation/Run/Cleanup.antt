-- ===== src/Validation/Run/Cleanup.antt =====
-- internal/validation/runner.go: whatever panics, a run cleans up.
use mathlib.Core.List.{append_assoc, append-nil}
use spatial_server.Base.{
  ℕ, ◌≡◌, refl, sym, ◌∙◌, ap, Bool, true, false, ◌⊎◌, inl, inr, Option, none, some, List, [], ◌∷◌,
  ◌++◌, String, All,
}
use spatial_server.Validation.Scenario.{
  Infrastructure, ObservationPhase, Evidence, check_requirements,
}
use spatial_server.Validation.Report.{ValidationReport}
use spatial_server.Validation.Runner.{
  Attempt, done, failed, panicked, Called, returned, panic, ScenarioDefinition, Clock, Validated,
  observe_all, validate_all,
}
use spatial_server.Validation.Run.{
  Action, left, left_with, crashed, dropped, deferred, generated, judged_by, reported_by, validated,
  observed_post, observe_post, late, recovered_by, injected_by, observed_base, checked, began,
  first_report, execute,
}

-- The calls that are made between the injection and its recovery.
abbrev pub IsMiddle : Action → Type 0
IsMiddle Action.waited = Unit
IsMiddle Action.judged = Unit
IsMiddle Action.reported = Unit
IsMiddle (Action.observed phase) = phase ≡ ObservationPhase.post_recovery
IsMiddle _ = ⊥

-- The calls of the run are those of `log` and further ones of that kind.
abbrev Extends : List Action → List Action → Type 0
Extends log longer = (rest : List Action) × (longer ≡ log ++ rest) × All IsMiddle rest

Extends-one :
    (log : List Action) (a : Action) (longer : List Action)
    → IsMiddle a
    → Extends (log ++ a ∷ []) longer
    → Extends log longer
Extends-one log a longer h (rest, e, m) = (a ∷ rest, e ∙ append_assoc log (a ∷ []) rest, (h, m))

Extends-none : (log : List Action) → Extends log log
Extends-none log = ([], sym (append-nil log), tt)

generated-Extends :
    (r : ValidationReport) (log : List Action) (c : Called Unit)
    → Extends log (generated r log c).log
unfolding generated left crashed
generated-Extends r log (returned _) = Extends-none log
generated-Extends r log (panic e) = Extends-none log

reported_by-Extends :
    (r : ValidationReport) (log : List Action) (g : Option (ValidationReport → Attempt Unit))
    → Extends log (reported_by r log g).log
unfolding reported_by left
reported_by-Extends r log none = Extends-none log
reported_by-Extends r log (some generate) =
    Extends-one log Action.reported _ tt
      (generated-Extends r (log ++ Action.reported ∷ []) (dropped (generate r)))

judged_by-Extends :
    (show : ℕ → String) (sc : ScenarioDefinition) (log : List Action) (r : ValidationReport)
    (passed : Bool) (c : Option String)
    → Extends log (judged_by show sc log r passed c).log
unfolding judged_by crashed
judged_by-Extends show sc log r passed (some e) = Extends-none log
judged_by-Extends show sc log r passed none = reported_by-Extends _ log sc.reporter

validated-Extends :
    (show : ℕ → String) (sc : ScenarioDefinition) (log : List Action) (v : Validated)
    → Extends log (validated show sc log v).log
unfolding validated
validated-Extends show sc log v =
    Extends-one log Action.judged _ tt
      (judged_by-Extends show sc (log ++ Action.judged ∷ []) v.report v.all_passed v.crash)

observed_post-Extends :
    (show : ℕ → String) (sc : ScenarioDefinition) (base : List Evidence) (r : ValidationReport)
    (log : List Action) (a : Attempt (List Evidence))
    → Extends log (observed_post show sc base r log a).log
unfolding observed_post left_with left crashed
observed_post-Extends show sc base r log (failed e) = Extends-none log
observed_post-Extends show sc base r log (panicked e) = Extends-none log
observed_post-Extends show sc base r log (done post) =
    validated-Extends show sc log
      (validate_all base post sc.validators (record r { post_recovery = post }) true)

observe_post-Extends :
    (clock : Clock) (show : ℕ → String) (sc : ScenarioDefinition) (infra : Infrastructure)
    (base : List Evidence) (r : ValidationReport) (log : List Action)
    → Extends log (observe_post clock show sc infra base r log).log
unfolding observe_post
observe_post-Extends clock show sc infra base r log =
    Extends-one log (Action.observed ObservationPhase.post_recovery) _ refl (
      observed_post-Extends show sc base r _
        (observe_all clock ObservationPhase.post_recovery sc.observers infra))

recovered_by-Extends :
    (clock : Clock) (show : ℕ → String) (sc : ScenarioDefinition) (infra : Infrastructure)
    (base : List Evidence) (r : ValidationReport) (log : List Action) (a : Attempt Unit)
    (late : Bool) (took : ℕ)
    → Extends log
        (recovered_by clock show sc infra base r log
          (record { ended = a; deadline_exceeded = late; took = took })).log
unfolding recovered_by crashed
recovered_by-Extends clock show sc infra base r log (done _) late took =
    observe_post-Extends clock show sc infra base _ log
recovered_by-Extends clock show sc infra base r log (failed e) late took =
    observe_post-Extends clock show sc infra base _ log
recovered_by-Extends clock show sc infra base r log (panicked e) late took = Extends-none log

injected_by-Extends :
    (clock : Clock) (show : ℕ → String) (sc : ScenarioDefinition) (infra : Infrastructure)
    (base : List Evidence) (r : ValidationReport) (log : List Action) (a : Attempt Unit)
    → Extends log (injected_by clock show sc infra base r log a).log
unfolding injected_by left_with left crashed
injected_by-Extends clock show sc infra base r log (failed e) = Extends-none log
injected_by-Extends clock show sc infra base r log (panicked e) = Extends-none log
injected_by-Extends clock show sc infra base r log (done _) =
    let w = sc.recovery infra in
    Extends-one log Action.waited _ tt
      (recovered_by-Extends clock show sc infra base r _ w.ended w.deadline_exceeded w.took)

-- The calls of a run: none that has an effect before the setup is complete, and from then on the
-- teardown as the last one; if the injector was called, its recovery is the one before.
abbrev pub IsClean : List Action → Type 0
IsClean log =
    (log ≡ [])
    ⊎ ((log ≡ Action.set_up ∷ Action.tore_down ∷ [])
        ⊎ ((log ≡ Action.set_up ∷ Action.observed ObservationPhase.baseline ∷ Action.tore_down ∷ [])
            ⊎ ((rest : List Action) × (log
                  ≡ (Action.set_up
                      ∷ Action.observed ObservationPhase.baseline
                      ∷ Action.injected
                      ∷ rest)
                    ++ Action.recovered ∷ Action.tore_down ∷ [])
                × All IsMiddle rest)))

-- The same before the deferred teardown.
abbrev IsHalf : List Action → Type 0
IsHalf log =
    (log ≡ Action.set_up ∷ [])
    ⊎ ((log ≡ Action.set_up ∷ Action.observed ObservationPhase.baseline ∷ [])
        ⊎ ((rest : List Action) × (log
              ≡ (Action.set_up ∷ Action.observed ObservationPhase.baseline ∷ Action.injected ∷ rest)
                ++ Action.recovered ∷ [])
            × All IsMiddle rest))

observed_base-IsHalf :
    (clock : Clock) (show : ℕ → String) (sc : ScenarioDefinition) (infra : Infrastructure)
    (r : ValidationReport) (a : Attempt (List Evidence))
    → IsHalf
        (observed_base clock show sc infra r
          (Action.set_up ∷ Action.observed ObservationPhase.baseline ∷ [])
          a).log
unfolding observed_base left_with left crashed deferred
observed_base-IsHalf clock show sc infra r (failed e) = inr (inl refl)
observed_base-IsHalf clock show sc infra r (panicked e) = inr (inl refl)
observed_base-IsHalf clock show sc infra r (done base) =
    let (rest, e, m) =
      injected_by-Extends clock show sc infra base (record r { baseline = base })
        (Action.set_up ∷ Action.observed ObservationPhase.baseline ∷ Action.injected ∷ [])
        (sc.injector.inject infra) in
    inr (inr (rest, ap (λ l. l ++ Action.recovered ∷ []) e, m))

checked-IsHalf :
    (clock : Clock) (show : ℕ → String) (sc : ScenarioDefinition) (infra : Infrastructure)
    (r : ValidationReport) (met : Bool) (reason : String)
    → IsHalf (checked clock show sc infra r (met, reason)).log
unfolding checked left_with left
checked-IsHalf clock show sc infra r false reason = inl refl
checked-IsHalf clock show sc infra r true reason = observed_base-IsHalf clock show sc infra r _

half_done : (log : List Action) → IsHalf log → IsClean (log ++ Action.tore_down ∷ [])
half_done log (inl e) = inr (inl (ap (λ l. l ++ Action.tore_down ∷ []) e))
half_done log (inr (inl e)) = inr (inr (inl (ap (λ l. l ++ Action.tore_down ∷ []) e)))
half_done log (inr (inr (rest, e, m))) = inr (
    inr (
      inr (
        rest,
        ap (λ l. l ++ Action.tore_down ∷ []) e
            ∙ append_assoc
                (Action.set_up ∷ Action.observed ObservationPhase.baseline ∷ Action.injected ∷ rest)
                (Action.recovered ∷ []) (Action.tore_down ∷ []),
        m,
      )))

began-IsClean :
    (clock : Clock) (show : ℕ → String) (sc : ScenarioDefinition) (r : ValidationReport)
    (a : Attempt (Infrastructure × Called Unit))
    → IsClean (began clock show sc r a).log
unfolding began left_with left crashed deferred
began-IsClean clock show sc r (failed e) = inl refl
began-IsClean clock show sc r (panicked e) = inl refl
began-IsClean clock show sc r (done (infra, teardown)) =
    let met = check_requirements infra sc.metadata.requirements in
    half_done (checked clock show sc infra r met).log
      (checked-IsHalf clock show sc infra r met.0 met.1)

-- Whichever of its calls fail or panic, a run whose setup is complete makes the teardown as its last
-- call, and if it called the injector, the recovery of the injector just before; a run whose setup
-- fails makes no further call.
pub run_cleans_up :
    (clock : Clock) (show : ℕ → String) (sc : ScenarioDefinition)
    → IsClean (execute clock show sc).log
unfolding execute
run_cleans_up clock show sc = began-IsClean clock show sc (first_report clock sc.metadata) sc.setup
