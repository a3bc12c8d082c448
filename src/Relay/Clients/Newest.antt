-- ===== src/Relay/Clients/Newest.antt =====
-- apps/game-server/main.go: a slow client loses the oldest of its packets, and only of its own.
use mathlib.Core.List.{append_assoc, append-nil}
use spatial_server.Base.{
  ℕ, zero, suc, ◌+◌, ◌-◌, ◌≤◌, ◌<◌, ◌≡◌, refl, sym, ap, ◌∙◌, List, [], ◌∷◌, ◌++◌, ltb, ltb→lt,
  lt→ltb, length, length-append, drop, string_key, arith, Bool-cases, inl, inr,
}
use spatial_server.Relay.Clients.{Bytes, BoundedSendQueue, drop_oldest, push_again, push}

drop-nil {ℓ} : {A : Type ℓ} (n : ℕ) → drop {A = A} n [] ≡ []
drop-nil zero = refl
drop-nil (suc n) = refl

drop-drop {ℓ} : {A : Type ℓ} (m n : ℕ) (xs : List A) → drop n (drop m xs) ≡ drop (m + n) xs
drop-drop zero n xs = ap (λ k. drop k xs) (omega arith)
drop-drop (suc m) n [] = drop-nil n ∙ sym (drop-nil (suc m + n))
drop-drop (suc m) n (x ∷ xs) = drop-drop m n xs ∙ again (suc m + n) (omega arith)
  where
    again : (k : ℕ) → suc (m + n) ≡ k → drop (m + n) xs ≡ drop k (x ∷ xs)
    again k e = ap (λ k. drop k (x ∷ xs)) e

drop-append {ℓ} :
    {A : Type ℓ} (m : ℕ) (xs ys : List A) → m ≤ length xs → drop m (xs ++ ys) ≡ drop m xs ++ ys
drop-append zero xs ys le = refl
drop-append (suc m) [] ys le = absurd (omega arith)
drop-append (suc m) (x ∷ xs) ys le = drop-append m xs ys (omega arith)

length-drop {ℓ} : {A : Type ℓ} (m : ℕ) (xs : List A) → length (drop m xs) ≡ length xs - m
length-drop zero xs = omega arith
length-drop (suc m) [] = omega arith
length-drop (suc m) (x ∷ xs) = omega (arith, length-drop m xs)

-- The newest `n` of a list.
abbrev pub newest : ℕ → List Bytes → List Bytes
newest n xs = drop (length xs - n) xs

drops_one :
    (q : BoundedSendQueue) (l : List Bytes) (packet : Bytes)
    → q.buffer ≡ l
    → length l ≡ q.capacity
    → 0 < q.capacity
    → ((push_again (drop_oldest q l) packet).buffer ≡ newest q.capacity (l ++ packet ∷ []))
      × ((push_again (drop_oldest q l) packet).drops ≡ q.drops + 1)
      × ((push_again (drop_oldest q l) packet).capacity ≡ q.capacity)
unfolding push_again drop_oldest
drops_one q [] packet e full pos = absurd (omega arith)
drops_one q (b ∷ rest) packet e full pos =
    rw (lt→ltb (length rest) q.capacity (omega arith), one_over (b ∷ rest) packet q.capacity full)
      (refl, refl, refl)
  where
    one_over : (l : List Bytes) (p : Bytes) (n : ℕ) → length l ≡ n → length (l ++ p ∷ []) - n ≡ 1
    one_over l p n h = omega (arith, length-append l (p ∷ []))

IsPushed : BoundedSendQueue → List Bytes → BoundedSendQueue → Type 0
IsPushed q xs p =
    (p.buffer ≡ newest q.capacity (q.buffer ++ xs))
    × (p.drops ≡ q.drops + (length (q.buffer ++ xs) - q.capacity))
    × (p.capacity ≡ q.capacity)

none_over :
    (q : BoundedSendQueue) (xs : List Bytes)
    → length (q.buffer ++ xs) ≤ q.capacity
    → length (q.buffer ++ xs) - q.capacity ≡ 0
none_over q xs h = omega arith

push-IsPushed :
    (q : BoundedSendQueue) (packet : Bytes)
    → 0 < q.capacity
    → length q.buffer ≤ q.capacity
    → IsPushed q (packet ∷ []) (push q packet)
unfolding push IsPushed
push-IsPushed q packet pos fits = elim (Bool-cases (ltb (length q.buffer) q.capacity)) [
  | inl room ↦
      rw
        (
          room,
          none_over q (packet ∷ []) (
              omega (
                arith,
                ltb→lt (length q.buffer) q.capacity room,
                length-append q.buffer (packet ∷ []),
              )),
        )
        (refl, omega arith, refl)
  | inr full ↦
      let same : length q.buffer ≡ q.capacity = ground arith in
      let (buffer, drops, capacity) = drops_one q q.buffer packet refl same pos in
      rw full (buffer, drops ∙ omega (arith, same, length-append q.buffer (packet ∷ [])), capacity)
]

unfoldable pub pushes : BoundedSendQueue → List Bytes → BoundedSendQueue
pushes q [] = q
pushes q (packet ∷ rest) = pushes (push q packet) rest

newest-newest : (n : ℕ) (xs ys : List Bytes) → newest n (newest n xs ++ ys) ≡ newest n (xs ++ ys)
newest-newest n xs ys =
    let m = length xs - n in
    let both : newest n xs ++ ys ≡ drop m (xs ++ ys) = sym (drop-append m xs ys (omega arith)) in
    rw both (
      drop-drop m (length (drop m (xs ++ ys)) - n) (xs ++ ys)
      ∙ ap (λ k. drop k (xs ++ ys)) (omega (arith, length-drop m (xs ++ ys), length-append xs ys)))

over-over :
    (n : ℕ) (xs ys : List Bytes)
    → (length xs - n) + (length (newest n xs ++ ys) - n) ≡ length (xs ++ ys) - n
over-over n xs ys =
    omega
      (arith, length-drop (length xs - n) xs, length-append (newest n xs) ys, length-append xs ys)

fits_again : (n : ℕ) (xs : List Bytes) → length (newest n xs) ≤ n
fits_again n xs = omega (arith, length-drop (length xs - n) xs)

still_positive :
    (q p : BoundedSendQueue) (xs : List Bytes) → 0 < q.capacity → IsPushed q xs p → 0 < p.capacity
unfolding IsPushed
still_positive q p xs pos (b, d, c) = omega (arith, c)

still_fits :
    (q p : BoundedSendQueue) (xs : List Bytes) → IsPushed q xs p → length p.buffer ≤ p.capacity
unfolding IsPushed
still_fits q p xs (b, d, c) = rw (b, c) (fits_again q.capacity (q.buffer ++ xs))

push_then :
    (q p r : BoundedSendQueue) (xs ys : List Bytes)
    → IsPushed q xs p
    → IsPushed p ys r
    → IsPushed q (xs ++ ys) r
unfolding IsPushed
push_then q p r xs ys (b, d, c) (b', d', c') =
    let n = q.capacity in
    let long = q.buffer ++ xs in
    (
      b' ∙ rw (c, b) (newest-newest n long ys ∙ ap (λ l. newest n l) (append_assoc q.buffer xs ys)),
      d'
          ∙ rw (c, b, d)
              (omega
                (arith, over-over n long ys, ap (λ l. length l) (append_assoc q.buffer xs ys))),
      c' ∙ c,
    )

all-IsPushed :
    (q : BoundedSendQueue) (packets : List Bytes)
    → 0 < q.capacity
    → length q.buffer ≤ q.capacity
    → IsPushed q packets (pushes q packets)
unfolding IsPushed pushes
all-IsPushed q [] pos fits =
    let none : length (q.buffer ++ []) - q.capacity ≡ 0 =
      omega (arith, length-append q.buffer []) in
    rw none (sym (append-nil q.buffer), omega arith, refl)
all-IsPushed q (packet ∷ rest) pos fits =
    let first = push-IsPushed q packet pos fits in
    push_then q (push q packet) (pushes (push q packet) rest) (packet ∷ []) rest first (
      all-IsPushed (push q packet) rest (still_positive q (push q packet) (packet ∷ []) pos first)
        (still_fits q (push q packet) (packet ∷ []) first))

-- However many packets are pushed while nothing is sent: the queue holds the newest of what it held
-- and was given, up to its capacity, in order, and every other packet is counted as dropped.
pub pushes_keep_newest :
    (q : BoundedSendQueue) (packets : List Bytes)
    → 0 < q.capacity
    → length q.buffer ≤ q.capacity
    → ((pushes q packets).buffer ≡ newest q.capacity (q.buffer ++ packets))
      × ((pushes q packets).drops ≡ q.drops + (length (q.buffer ++ packets) - q.capacity))
unfolding IsPushed
pushes_keep_newest q packets pos fits =
    let (buffer, drops, capacity) = all-IsPushed q packets pos fits in (buffer, drops)
