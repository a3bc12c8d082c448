-- ===== src/Base/Queue.antt =====
-- A bounded queue: a channel that is written by a `select` with a default.
use Prim.Native.Nat.{ℕ, suc, ◌-◌}
use mathlib.Core.Path.{◌≡◌, refl, sym, ap, ◌∙◌}
use mathlib.Core.Logic.{inl, inr}
use mathlib.Core.List.{List, [], ◌∷◌, ◌++◌, append-nil, append_assoc}
use native.Mathlib.Omega.{arith}
use spatial_server.Base.Tests.{ltb, if◌then◌else◌, Bool-cases, ltb→lt}
use spatial_server.Base.Lists.{length, take, length-append, take-nil}

module _ {ℓ} {A : Type ℓ} (capacity : ℕ) where
  -- A full queue drops what it is offered.
  unfoldable pub offer : List A → A → List A
  offer queue x = if ltb (length queue) capacity then queue ++ x ∷ [] else queue

  unfoldable pub offers : List A → List A → List A
  unfolding offer
  offers queue [] = queue
  offers queue (x ∷ xs) = offers (offer queue x) xs

  -- What the queue holds in the end: as much as it has room for, in order.
  abbrev pub filled : List A → List A → List A
  filled queue xs = queue ++ take (capacity - length queue) xs

  filled-some :
      (queue xs : List A) (x : A) (n m : ℕ)
      → n ≡ suc m
      → (queue ++ x ∷ []) ++ take m xs ≡ queue ++ take n (x ∷ xs)
  filled-some queue xs x n m e = rw e (append_assoc queue (x ∷ []) (take m xs))

  pub filled-offer : (queue xs : List A) (x : A) → filled (offer queue x) xs ≡ filled queue (x ∷ xs)
  unfolding offer
  filled-offer queue xs x = elim (Bool-cases (ltb (length queue) capacity)) [
    | inl room ↦ rw room (
        filled-some queue xs x (capacity - length queue) (capacity - length (queue ++ x ∷ []))
          (omega (arith, ltb→lt (length queue) capacity room, length-append queue (x ∷ []))))
    | inr full ↦ rw full (no_room (capacity - length queue) (ground arith))
  ]
    where
      no_room : (n : ℕ) → n ≡ 0 → queue ++ take n xs ≡ queue ++ take n (x ∷ xs)
      no_room n e = rw e refl

  pub filled-nil : (queue : List A) → queue ≡ filled queue []
  filled-nil queue =
      sym (ap (λ l. queue ++ l) (take-nil (capacity - length queue)) ∙ append-nil queue)

  pub offers_lem : (queue xs : List A) → offers queue xs ≡ filled queue xs
  unfolding offers
  offers_lem queue [] = filled-nil queue
  offers_lem queue (x ∷ xs) = offers_lem (offer queue x) xs ∙ filled-offer queue xs x
