-- ===== src/Validation/Scenario.antt =====
-- internal/validation/scenario.go and `ValidateScenarios` of runner.go: what a scenario consists of.
pub mod Checks
use spatial_server.Base.{
  ℕ, ◌+◌, Bool, true, false, Option, none, some, List, [], ◌∷◌, if◌then◌else◌, ltb, ◌==◌, ◌&&◌,
  String, string_key, Map, get, put,
}
use spatial_server.Base.Text.{decimal, ◌<>◌}

pub data ResourceId : Type 0 where
  postgres redis room_service runtime gateway : ResourceId

-- The result of an interface method that does not panic: a value or the text of its error.
pub data Fetched (A : Type 0) : Type 0 where
  fetched : A → Fetched A
  error : String → Fetched A

-- The methods of the interface that the package calls.
pub record Infrastructure : Type 0 where
  pub endpoint : ResourceId → Fetched String
  pub database : ResourceId → Fetched String
  pub runtime_nodes : ℕ

pub data ExecutionMode : Type 0 where
  process compose any : ExecutionMode

pub data Severity : Type 0 where
  low medium high critical : Severity

pub record Requirements : Type 0 where
  pub min_runtime_nodes : ℕ
  pub compose_required : Bool
  pub postgre_sql : Bool
  pub redis : Bool
  pub network_faults : Bool

-- Durations and times are numbers of nanoseconds.
pub record ScenarioMetadata : Type 0 where
  pub id : String
  pub name : String
  pub description : String
  pub version : ℕ
  pub tags : List String
  pub severity : Severity
  pub mode : ExecutionMode
  pub requirements : Requirements
  pub timeout : ℕ
  pub expected_behavior : String

pub data AcceptancePolicy : Type 0 where
  accept_warn accept_fail : AcceptancePolicy

pub record AcceptanceCriterion : Type 0 where
  pub threshold : ℕ
  pub policy : AcceptancePolicy

pub record AcceptanceCriteria : Type 0 where
  pub recovery_duration : AcceptanceCriterion
  pub ownership_convergence : AcceptanceCriterion
  pub tick_p95 : AcceptanceCriterion
  pub reconnect_time : AcceptanceCriterion
  pub queue_drain_time : AcceptanceCriterion

-- `CheckRequirements`, from its end: each helper is the rest of the function.
check_faults : Requirements → Bool × String
check_faults req =
    if req.compose_required
    then (false, "compose mode not available in this environment")
    else if req.network_faults
    then (false, "network faults require compose mode")
    else (true, "")

check_nodes : Infrastructure → Requirements → Bool × String
unfolding check_faults
check_nodes infra req =
    if ltb 0 req.min_runtime_nodes && ltb infra.runtime_nodes req.min_runtime_nodes
    then (
      false,
      "need "
          <> decimal req.min_runtime_nodes
          <> " runtime nodes, have "
          <> decimal infra.runtime_nodes,
    )
    else check_faults req

check_redis : Infrastructure → Requirements → Fetched String → Bool × String
unfolding check_nodes
check_redis infra req (fetched url) = check_nodes infra req
check_redis infra req (error e) =
    if req.redis then (false, "redis: " <> e) else check_nodes infra req

check_postgres : Infrastructure → Requirements → Fetched String → Bool × String
unfolding check_redis
check_postgres infra req (fetched url) = check_redis infra req (infra.endpoint ResourceId.redis)
check_postgres infra req (error e) =
    if req.postgre_sql
    then (false, "postgres: " <> e)
    else check_redis infra req (infra.endpoint ResourceId.redis)

unfoldable pub check_requirements : Infrastructure → Requirements → Bool × String
unfolding check_postgres
check_requirements infra req = check_postgres infra req (infra.database ResourceId.postgres)

pub data ObservationPhase : Type 0 where
  baseline post_recovery : ObservationPhase

pub record Evidence : Type 0 where
  pub timestamp : ℕ
  pub phase : ObservationPhase
  pub source : String
  pub kind : String
  pub key : String
  pub value : String

add_evidence : Map String Evidence → List Evidence → Map String Evidence
add_evidence m [] = m
add_evidence m (e ∷ evidence) = add_evidence (put m e.key e) evidence

unfoldable pub evidence_map : List Evidence → Map String Evidence
unfolding add_evidence
evidence_map evidence = add_evidence [] evidence

pub data ObserverPolicy : Type 0 where
  required optional : ObserverPolicy

pub data ValidationStatus : Type 0 where
  pass fail warn skip : ValidationStatus

pub record ValidationResult : Type 0 where
  pub validator : String
  pub status : ValidationStatus
  pub evidence_indices : List ℕ
  pub detail : String

-- The errors of `ValidateScenarios`, with the numbers of their texts.
pub data ScenarioError : Type 0 where
  empty_id : ℕ → ScenarioError
  duplicate_id : String → ℕ → ℕ → ScenarioError

seen_before : Map String ℕ → String → ℕ → Option ℕ → Option ScenarioError → Option ScenarioError
seen_before seen id i (some prev) rest = some (duplicate_id id prev i)
seen_before seen id i none rest = rest

-- The loop over the scenarios, from the index `i` on.
validate_from : Map String ℕ → ℕ → List ScenarioMetadata → Option ScenarioError
unfolding seen_before
validate_from seen i [] = none
validate_from seen i (sc ∷ scenarios) =
    let rest = validate_from (put seen sc.id i) (i + 1) scenarios in
    if sc.id == "" then some (empty_id i) else seen_before seen sc.id i (get seen sc.id) rest

-- `none` is a nil error. Only the metadata of the scenarios is read.
unfoldable pub validate_scenarios : List ScenarioMetadata → Option ScenarioError
unfolding validate_from
validate_scenarios scenarios = validate_from [] 0 scenarios
