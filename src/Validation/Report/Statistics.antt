-- ===== src/Validation/Report/Statistics.antt =====
-- internal/validation/report.go: the statistics of the recovery times of a summary.
use spatial_server.Base.{
  ℕ, ◌+◌, ◌/◌, ◌≤◌, ◌≡◌, refl, ap, ◌∙◌, Bool, true, false, All, elem, nat_key, List, [], ◌∷◌,
  if◌then◌else◌, ltb, length, arith,
}
use spatial_server.Validation.Report.{
  RecoveryTimes, total_of, least_of, greatest_of, recovery_times,
}

least-le : (m : ℕ) (ds : List ℕ) → least_of m ds ≤ m
unfolding least_of
least-le m [] = omega arith
least-le m (d ∷ ds) = ground (arith, least-le (if ltb d m then d else m) ds)

greatest-ge : (m : ℕ) (ds : List ℕ) → m ≤ greatest_of m ds
unfolding greatest_of
greatest-ge m [] = omega arith
greatest-ge m (d ∷ ds) = ground (arith, greatest-ge (if ltb m d then d else m) ds)

least-least : (m : ℕ) (ds : List ℕ) → All (λ x. least_of m ds ≤ x) ds
unfolding least_of
least-least m [] = tt
least-least m (d ∷ ds) =
    let k = if ltb d m then d else m in (ground (arith, least-le k ds), least-least k ds)

greatest-greatest : (m : ℕ) (ds : List ℕ) → All (λ x. x ≤ greatest_of m ds) ds
unfolding greatest_of
greatest-greatest m [] = tt
greatest-greatest m (d ∷ ds) =
    let k = if ltb m d then d else m in (ground (arith, greatest-ge k ds), greatest-greatest k ds)

-- What is chosen from two values and a list is one of them.
elem-chosen :
    (b : Bool) (x m d : ℕ) (ds : List ℕ)
    → elem x ((if b then d else m) ∷ ds) ≡ true
    → elem x (m ∷ d ∷ ds) ≡ true
unfolding elem
elem-chosen true x m d ds h = ground (arith, h)
elem-chosen false x m d ds h = ground (arith, h)

least-elem : (m : ℕ) (ds : List ℕ) → elem (least_of m ds) (m ∷ ds) ≡ true
unfolding least_of
least-elem m [] = unfold elem in ground arith
least-elem m (d ∷ ds) =
    let k = if ltb d m then d else m in
    elem-chosen (ltb d m) (least_of k ds) m d ds (least-elem k ds)

greatest-elem : (m : ℕ) (ds : List ℕ) → elem (greatest_of m ds) (m ∷ ds) ≡ true
unfolding greatest_of
greatest-elem m [] = unfold elem in ground arith
greatest-elem m (d ∷ ds) =
    let k = if ltb m d then d else m in
    elem-chosen (ltb m d) (greatest_of k ds) m d ds (greatest-elem k ds)

least_self : (d : ℕ) (ds : List ℕ) → least_of d (d ∷ ds) ≡ least_of d ds
unfolding least_of
least_self d ds = ground arith

greatest_self : (d : ℕ) (ds : List ℕ) → greatest_of d (d ∷ ds) ≡ greatest_of d ds
unfolding greatest_of
greatest_self d ds = ground arith

abbrev sum : List ℕ → ℕ
sum [] = 0
sum (d ∷ ds) = d + sum ds

total-sum : (ds : List ℕ) → total_of ds ≡ sum ds
unfolding total_of
total-sum [] = refl
total-sum (d ∷ ds) = ap (λ n. d + n) (total-sum ds)

-- The statistics of some times: their number, the least and the greatest of them, and the quotient of
-- their sum by their number; all zero if there are none.
abbrev pub IsStatistics : List ℕ → RecoveryTimes → Type 0
IsStatistics [] r =
    (r.count ≡ 0) × (r.min_duration ≡ 0) × (r.max_duration ≡ 0) × (r.mean_duration ≡ 0)
IsStatistics (d ∷ ds) r =
    (r.count ≡ length (d ∷ ds))
    × (elem r.min_duration (d ∷ ds) ≡ true)
    × All (λ x. r.min_duration ≤ x) (d ∷ ds)
    × (elem r.max_duration (d ∷ ds) ≡ true)
    × All (λ x. x ≤ r.max_duration) (d ∷ ds)
    × (r.mean_duration ≡ sum (d ∷ ds) / length (d ∷ ds))

pub recovery_times-IsStatistics : (ds : List ℕ) → IsStatistics ds (recovery_times ds)
unfolding recovery_times
recovery_times-IsStatistics [] = (refl, refl, refl, refl)
recovery_times-IsStatistics (d ∷ ds) = (
  refl,
  ap (λ m. elem m (d ∷ ds)) (least_self d ds) ∙ least-elem d ds,
  least-least d (d ∷ ds),
  ap (λ m. elem m (d ∷ ds)) (greatest_self d ds) ∙ greatest-elem d ds,
  greatest-greatest d (d ∷ ds),
  ap (λ n. n / length (d ∷ ds)) (total-sum (d ∷ ds)),
)
