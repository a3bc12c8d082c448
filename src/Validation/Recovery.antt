-- ===== src/Validation/Recovery.antt =====
-- internal/validation/recovery/waiter.go: waiting until conditions of a recovery are met.
pub mod Waits
use spatial_server.Base.{
  ℕ, zero, suc, Bool, true, false, Option, none, some, List, [], ◌∷◌, ◌++◌, if◌then◌else◌, ltb, leb,
  length, ◌&&◌, String, ◌==◌, nat_key,
}
use spatial_server.Validation.Scenario.{Infrastructure}

pub data CompositeMode : Type 0 where
  mode_all mode_any : CompositeMode

-- A condition by its answers: `met` says of each poll, counted from 0, whether it is met then; an
-- error of `Met` is dropped, its answer kept.
pub record Condition : Type 0 where
  pub name : String
  pub met : ℕ → Bool

pub record CompositeWaiter : Type 0 where
  pub mode : CompositeMode
  pub conditions : List Condition

-- `check`: the names of the conditions that are met and of those that are not.
unfoldable pub check : List Condition → ℕ → List String × List String
check [] poll = ([], [])
check (c ∷ conditions) poll =
    let rest = check conditions poll in
    if c.met poll then (c.name ∷ rest.0, rest.1) else (rest.0, c.name ∷ rest.1)

-- The switch on the mode, after `check`.
satisfied : CompositeMode → List String × List String → Bool
satisfied CompositeMode.mode_all (met, unmet) = (length unmet == 0) && ltb 0 (length met)
satisfied CompositeMode.mode_any (met, unmet) = ltb 0 (length met)

-- The loop, from the poll `poll` on, while `fuel` more polls come before the context ends: the
-- number of the poll that ended it, or `none` for the error of the context.
wait_from : CompositeWaiter → ℕ → ℕ → Option ℕ
unfolding satisfied check
wait_from w zero poll = none
wait_from w (suc fuel) poll =
    let rest = wait_from w fuel (suc poll) in
    if satisfied w.mode (check w.conditions poll) then some poll else rest

-- `Wait`, when `polls` ticks come before the context ends. Without conditions it returns at once.
unfoldable pub wait : CompositeWaiter → ℕ → Option ℕ
unfolding wait_from
wait w polls = elim w.conditions [ [] ↦ some 0 | c ∷ cs ↦ wait_from w polls 0 ]
