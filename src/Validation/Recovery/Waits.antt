-- ===== src/Validation/Recovery/Waits.antt =====
-- internal/validation/recovery/waiter.go: when `Wait` returns.
use spatial_server.Base.{
  ℕ, zero, suc, ◌+◌, ◌≤◌, ◌<◌, ◌≡◌, refl, sym, subst, ◌∙◌, ap, Bool, true, false, inl, inr,
  Bool-cases, Option, none, some, List, [], ◌∷◌, ltb, length, ◌==◌, ◌&&◌, ◌||◌, nat_key, arith,
  ℕ_discrete,
}
use spatial_server.Validation.Recovery.{
  CompositeMode, Condition, CompositeWaiter, check, satisfied, wait_from, wait,
}

abbrev pub all_met : List Condition → ℕ → Bool
all_met [] poll = true
all_met (c ∷ conditions) poll = c.met poll && all_met conditions poll

abbrev pub any_met : List Condition → ℕ → Bool
any_met [] poll = false
any_met (c ∷ conditions) poll = c.met poll || any_met conditions poll

-- What the waiter waits for.
abbrev pub holds : CompositeMode → List Condition → ℕ → Bool
holds CompositeMode.mode_all conditions poll = all_met conditions poll
holds CompositeMode.mode_any conditions poll = any_met conditions poll

check-all :
    (conditions : List Condition) (poll : ℕ)
    → (length (check conditions poll).1 == 0) ≡ all_met conditions poll
unfolding check ℕ_discrete
check-all [] poll = refl
check-all (c ∷ conditions) poll = ground (arith, check-all conditions poll)

check-any :
    (conditions : List Condition) (poll : ℕ)
    → ltb 0 (length (check conditions poll).0) ≡ any_met conditions poll
unfolding check
check-any [] poll = refl
check-any (c ∷ conditions) poll = ground (arith, check-any conditions poll)

satisfied-holds :
    (mode : CompositeMode) (c : Condition) (cs : List Condition) (poll : ℕ)
    → satisfied mode (check (c ∷ cs) poll) ≡ holds mode (c ∷ cs) poll
unfolding satisfied
satisfied-holds CompositeMode.mode_all c cs poll =
    ground (arith, check-all (c ∷ cs) poll, check-any (c ∷ cs) poll)
satisfied-holds CompositeMode.mode_any c cs poll = check-any (c ∷ cs) poll

-- The first of the polls from `start` up to `stop` that passes the test, or that none does.
abbrev pub IsFirst : (ℕ → Bool) → ℕ → ℕ → Option ℕ → Type 0
IsFirst test start stop none = (poll : ℕ) → start ≤ poll → poll < stop → test poll ≡ false
IsFirst test start stop (some found) =
    (start ≤ found)
    × (found < stop)
    × (test found ≡ true)
    × ((poll : ℕ) → start ≤ poll → poll < found → test poll ≡ false)

later-IsFirst :
    (test : ℕ → Bool) (start stop : ℕ) (o : Option ℕ)
    → test start ≡ false
    → IsFirst test (suc start) stop o
    → IsFirst test start stop o
later-IsFirst test start stop none off h = λ poll lo hi. elim (ℕ_discrete start poll) [
  | yes e ↦ ap test (sym e) ∙ off
  | no ne ↦ h poll (ground arith) hi
]
later-IsFirst test start stop (some found) off (lo, hi, at, before) = (
  omega arith,
  hi,
  at,
  λ poll from to. elim (ℕ_discrete start poll) [
    | yes e ↦ ap test (sym e) ∙ off
    | no ne ↦ before poll (ground arith) to
  ],
)

wait_from-IsFirst :
    (w : CompositeWaiter) (test : ℕ → Bool) (fuel start : ℕ)
    → ((poll : ℕ) → satisfied w.mode (check w.conditions poll) ≡ test poll)
    → IsFirst test start (start + fuel) (wait_from w fuel start)
unfolding wait_from
wait_from-IsFirst w test zero start h = λ poll lo hi. absurd (omega arith)
wait_from-IsFirst w test (suc fuel) start h = elim (Bool-cases (test start)) [
  | inl on ↦ rw (h start) (rw on (omega arith, omega arith, on, λ poll lo hi. absurd (omega arith)))
  | inr off ↦ rw (h start) (
      rw off (
        later-IsFirst test start (start + suc fuel) _ off (
          subst (λ stop. IsFirst test (suc start) stop (wait_from w fuel (suc start)))
            {x = suc start + fuel} {y = start + suc fuel} (omega arith)
            (wait_from-IsFirst w test fuel (suc start) h))))
]

-- A waiter with a condition returns without an error as soon as its conditions hold: at the first
-- poll before the end of the context at which all of them are met, or any, by its mode. It fails
-- only if there is no such poll.
pub wait-IsFirst :
    (mode : CompositeMode) (c : Condition) (cs : List Condition) (polls : ℕ)
    → IsFirst
        (holds mode (c ∷ cs))
        0
        polls
        (wait (record { mode = mode; conditions = c ∷ cs }) polls)
unfolding wait
wait-IsFirst mode c cs polls =
    let w : CompositeWaiter = record { mode = mode; conditions = c ∷ cs } in
    subst (λ stop. IsFirst (holds mode (c ∷ cs)) 0 stop (wait_from w polls 0)) {x = 0 + polls}
      {y = polls} (omega arith)
      (wait_from-IsFirst w (holds mode (c ∷ cs)) polls 0 (satisfied-holds mode c cs))
