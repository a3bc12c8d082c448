-- ===== src/Validation/Scenario/Checks.antt =====
-- internal/validation: what the checks before a run accept.
use mathlib.Core.List.{append_assoc, append-nil}
use spatial_server.Base.{
  ℕ, ◌+◌, ◌≡◌, refl, sym, ◌∙◌, ap, subst, Bool, true, false, inl, inr, Bool-cases, Option, none,
  some, List, [], ◌∷◌, ◌++◌, leb, ◌==◌, ◌&&◌, String, string_key, Map, get, put, get-put, arith,
  length, length-append, elem, elem-append_one, Distinct, append_one-Distinct, All, eq_of_test, not,
}
use spatial_server.Validation.Scenario.{
  ResourceId, Fetched, fetched, error, Infrastructure, Requirements, check_requirements,
  check_postgres, check_redis, check_nodes, check_faults, ScenarioMetadata, ScenarioError, empty_id,
  duplicate_id, validate_scenarios, validate_from, seen_before,
}

-- The call did not fail, or is not needed.
abbrev pub is_met : Bool → Fetched String → Bool
is_met needed (fetched url) = true
is_met needed (error e) = not needed

-- Everything that a scenario requires is there.
abbrev pub all_met : Infrastructure → Requirements → Bool
all_met infra req =
    is_met req.postgre_sql (infra.database ResourceId.postgres)
    && is_met req.redis (infra.endpoint ResourceId.redis)
    && leb req.min_runtime_nodes infra.runtime_nodes
    && not req.compose_required
    && not req.network_faults

check_redis-met :
    (infra : Infrastructure) (req : Requirements) (r : Fetched String)
    → (check_redis infra req r).0 ≡ (
        is_met req.redis r
        && leb req.min_runtime_nodes infra.runtime_nodes
        && not req.compose_required
        && not req.network_faults)
unfolding check_redis check_nodes check_faults
check_redis-met infra req (fetched url) = ground arith
check_redis-met infra req (error e) = ground arith

check_postgres-met :
    (infra : Infrastructure) (req : Requirements) (p : Fetched String)
    → (check_postgres infra req p).0 ≡ (
        is_met req.postgre_sql p
        && is_met req.redis (infra.endpoint ResourceId.redis)
        && leb req.min_runtime_nodes infra.runtime_nodes
        && not req.compose_required
        && not req.network_faults)
unfolding check_postgres
check_postgres-met infra req (fetched url) =
    check_redis-met infra req (infra.endpoint ResourceId.redis)
check_postgres-met infra req (error e) =
    ground (arith, check_redis-met infra req (infra.endpoint ResourceId.redis))

-- The requirements are met exactly if all of them are.
pub check_requirements-met :
    (infra : Infrastructure) (req : Requirements)
    → (check_requirements infra req).0 ≡ all_met infra req
unfolding check_requirements
check_requirements-met infra req = check_postgres-met infra req (infra.database ResourceId.postgres)

abbrev pub ids : List ScenarioMetadata → List String
ids [] = []
ids (sc ∷ scenarios) = sc.id ∷ ids scenarios

-- No identifier is empty and none occurs twice.
abbrev pub IsValid : List String → Type 0
IsValid names = All (λ id. (id == "") ≡ false) names × Distinct names

-- What an error says: the first scenario that is wrong, and what is wrong with it.
abbrev pub IsVerdict : List String → Option ScenarioError → Type 0
IsVerdict names none = IsValid names
IsVerdict names (some (empty_id i)) =
    (before : List String) × (after : List String) × (names ≡ before ++ "" ∷ after)
    × (length before ≡ i)
    × IsValid before
IsVerdict names (some (duplicate_id id prev i)) =
    (first : List String) × (between : List String) × (after : List String) × (names
      ≡ (first ++ id ∷ between) ++ id ∷ after)
    × (length first ≡ prev)
    × (length (first ++ id ∷ between) ≡ i)
    × IsValid (first ++ id ∷ between)

-- What the map `seen` says of an identifier.
abbrev IsSeenAt : List String → String → Option ℕ → Type 0
IsSeenAt names id none = elem id names ≡ false
IsSeenAt names id (some prev) =
    (first : List String) × (between : List String) × (names ≡ first ++ id ∷ between)
    × (length first ≡ prev)

abbrev IsSeen : List String → Map String ℕ → Type 0
IsSeen names seen = (id : String) → IsSeenAt names id (get seen id)

later_seen :
    (names : List String) (new id : String) (o : Option ℕ)
    → (new == id) ≡ false
    → IsSeenAt names id o
    → IsSeenAt (names ++ new ∷ []) id o
later_seen names new id none ne h = ground (arith, elem-append_one id new names)
later_seen names new id (some prev) ne (first, between, e, l) = (
  first,
  between ++ new ∷ [],
  ap (λ ns. ns ++ new ∷ []) e ∙ append_assoc first (id ∷ between) (new ∷ []),
  l,
)

put-IsSeen :
    (names : List String) (seen : Map String ℕ) (new : String)
    → IsSeen names seen
    → IsSeen (names ++ new ∷ []) (put seen new (length names))
put-IsSeen names seen new h id = elim (Bool-cases (new == id)) [
  | inl same ↦
      rw (get-put seen new id (length names))
        (rw same (names, [], ap (λ n. names ++ n ∷ []) (eq_of_test new id same), refl))
  | inr other ↦
      rw (get-put seen new id (length names))
        (rw other (later_seen names new id (get seen id) other (h id)))
]

append_one-All :
    (names : List String) (id : String)
    → (id == "") ≡ false
    → All (λ id. (id == "") ≡ false) names
    → All (λ id. (id == "") ≡ false) (names ++ id ∷ [])
append_one-All [] id ne h = (ne, tt)
append_one-All (n ∷ names) id ne h = (h.0, append_one-All names id ne h.1)

seen_before-IsVerdict :
    (names : List String) (seen : Map String ℕ) (sc : ScenarioMetadata) (rest : List String)
    (o : Option ℕ) (v : Option ScenarioError)
    → IsValid names
    → IsSeenAt names sc.id o
    → (elem sc.id names ≡ false → IsVerdict (names ++ sc.id ∷ rest) v)
    → IsVerdict (names ++ sc.id ∷ rest) (seen_before seen sc.id (length names) o v)
unfolding seen_before
seen_before-IsVerdict names seen sc rest none v valid h later = later h
seen_before-IsVerdict names seen sc rest (some prev) v valid (first, between, e, l) later = (
  first,
  between,
  rest,
  ap (λ ns. ns ++ sc.id ∷ rest) e,
  l,
  ap length (sym e),
  subst IsValid e valid,
)

next-IsVerdict :
    (names : List String) (seen : Map String ℕ) (sc : ScenarioMetadata)
    (scenarios : List ScenarioMetadata)
    → IsVerdict
        ((names ++ sc.id ∷ []) ++ ids scenarios)
        (validate_from (put seen sc.id (length names)) (length (names ++ sc.id ∷ [])) scenarios)
    → IsVerdict
        (names ++ sc.id ∷ ids scenarios)
        (validate_from (put seen sc.id (length names)) (length names + 1) scenarios)
next-IsVerdict names seen sc scenarios v =
    subst
      (λ i.
        IsVerdict (names ++ sc.id ∷ ids scenarios)
          (validate_from (put seen sc.id (length names)) i scenarios))
      (length-append names (sc.id ∷ []))
      (subst
        (λ ns.
          IsVerdict ns (
            validate_from (put seen sc.id (length names)) (length (names ++ sc.id ∷ [])) scenarios))
        (append_assoc names (sc.id ∷ []) (ids scenarios)) v)

validate_from-IsVerdict :
    (names : List String) (seen : Map String ℕ) (scenarios : List ScenarioMetadata)
    → IsValid names
    → IsSeen names seen
    → IsVerdict (names ++ ids scenarios) (validate_from seen (length names) scenarios)
unfolding validate_from
validate_from-IsVerdict names seen [] valid h = subst IsValid (sym (append-nil names)) valid
validate_from-IsVerdict names seen (sc ∷ scenarios) valid h = elim (Bool-cases (sc.id == "")) [
  | inl empty ↦ rw empty (
    names,
    ids scenarios,
    ap (λ n. names ++ n ∷ ids scenarios) (eq_of_test sc.id "" empty),
    refl,
    valid,
  )
  | inr named ↦ rw named (
      seen_before-IsVerdict names seen sc (ids scenarios) (get seen sc.id)
        (validate_from (put seen sc.id (length names)) (length names + 1) scenarios) valid (h sc.id)
        (λ new. next-IsVerdict names seen sc scenarios (
          validate_from-IsVerdict (names ++ sc.id ∷ []) (put seen sc.id (length names)) scenarios
            (append_one-All names sc.id named valid.0, append_one-Distinct sc.id names new valid.1)
            (put-IsSeen names seen sc.id h))))
]

-- `ValidateScenarios` accepts a list exactly if no identifier is empty and none occurs twice.
-- Otherwise its error names the first scenario that is wrong: its index, that its identifier is
-- empty, or the identifier and the index of the scenario before it that has the same.
pub validate_scenarios-IsVerdict :
    (scenarios : List ScenarioMetadata) → IsVerdict (ids scenarios) (validate_scenarios scenarios)
unfolding validate_scenarios elem get
validate_scenarios-IsVerdict scenarios =
    validate_from-IsVerdict [] [] scenarios (tt, tt) (λ id. refl)
