-- ===== src/Game/Zone/Adjacent.antt =====
-- internal/game/zone/zone.go: the coordinates that `AdjacentZones` lists.
use spatial_server.Base.{
  ℕ, zero, suc, ◌+◌, ◌*◌, ◌≡◌, refl, ap, ◌∙◌, ◌<◌, ◌≤◌, Bool, true, false, if◌then◌else◌, Option,
  none, some, List, ◌&&◌, ◌||◌, leb, ltb, elem, length, length-append, elem-append, Key, ◌==◌,
  arith,
}
use spatial_server.Base.Int.{
  ℤ, pos, negsuc, ℤ_discrete, int_key, ◌+ℤ◌, ◌-ℤ◌, pos_part, neg_part, +ℤ_parts, -ℤ_parts,
  eq_of_parts,
}
use spatial_server.Game.Zone.{
  GridCoord, column, columns, int_bound, wrap, wrap_ℕ, complement, rounds, is_endless,
  zones_between, adjacent_zones,
}

unfoldable pub GridCoord_discrete : Discrete GridCoord
GridCoord_discrete = hlevel ℤ_discrete

instance abbrev pub grid_key : Key GridCoord
grid_key = record { dec = GridCoord_discrete }

-- from ≤ v < from + n
abbrev in_run : ℤ → ℕ → ℤ → Bool
in_run from n v =
    leb (pos_part from + neg_part v) (pos_part v + neg_part from)
    && ltb (pos_part v + neg_part from) (pos_part from + neg_part v + n)

in_run-suc : (y v : ℤ) (n : ℕ) → in_run y (suc n) v ≡ ((y == v) || in_run (y +ℤ pos 1) n v)
in_run-suc y v n = ground (arith, +ℤ_parts y (pos 1), eq_of_parts y v)

elem-column :
    (x y : ℤ) (n : ℕ) (g : GridCoord) → elem g (column x n y) ≡ ((x == g.x) && in_run y n g.y)
unfolding column elem
elem-column x y zero g = ground arith
elem-column x y (suc n) g = ground (arith, elem-column x (y +ℤ pos 1) n g, in_run-suc y g.y n)

elem-columns :
    (side n : ℕ) (x y : ℤ) (g : GridCoord)
    → elem g (columns side n x y) ≡ (in_run x n g.x && in_run y side g.y)
unfolding columns elem
elem-columns side zero x y g = ground arith
elem-columns side (suc n) x y g = ground (
  arith,
  elem-append g (column x side y) (columns side n (x +ℤ pos 1) y),
  elem-column x y side g,
  elem-columns side n (x +ℤ pos 1) y g,
  in_run-suc x g.x n,
)

length-column : (x y : ℤ) (n : ℕ) → length (column x n y) ≡ n
unfolding column
length-column x y zero = refl
length-column x y (suc n) = omega (arith, length-column x (y +ℤ pos 1) n)

length-columns : (side n : ℕ) (x y : ℤ) → length (columns side n x y) ≡ n * side
unfolding columns
length-columns side zero x y = omega arith
length-columns side (suc n) x y = omega (
  arith,
  length-append (column x side y) (columns side n (x +ℤ pos 1) y),
  length-column x y side,
  length-columns side n (x +ℤ pos 1) y,
)

-- |a - b| ≤ n as a test
abbrev pub is_near : ℕ → ℤ → ℤ → Bool
is_near n a b =
    leb (pos_part a + neg_part b) (pos_part b + neg_part a + n)
    && leb (pos_part b + neg_part a) (pos_part a + neg_part b + n)

in_run-around : (n : ℕ) (c v : ℤ) → in_run (c -ℤ pos n) (suc (n + n)) v ≡ is_near n v c
in_run-around n c v = ground (arith, -ℤ_parts c (pos n))

-- A value of the type `int` is not changed.
wrap-IsInt : (v : ℤ) → pos_part v < int_bound → neg_part v ≤ int_bound → wrap v ≡ v
unfolding wrap wrap_ℕ complement
wrap-IsInt (pos n) h k = ground arith
wrap-IsInt (negsuc n) h k = ground arith

rounds_around : (c : ℤ) (n : ℕ) → rounds (c -ℤ pos n) (c +ℤ pos n) ≡ suc (n + n)
unfolding rounds
rounds_around c n = omega (arith, -ℤ_parts c (pos n), +ℤ_parts c (pos n))

-- The bounds of a loop around c, and that it ends.
IsBounded : ℤ → ℕ → Type 0
IsBounded c n =
    (wrap (c -ℤ pos n) ≡ c -ℤ pos n)
    × (wrap (c +ℤ pos n) ≡ c +ℤ pos n)
    × (is_endless (c +ℤ pos n) ≡ false)

bounded :
    (c : ℤ) (n : ℕ) → pos_part c + n + 1 < int_bound → neg_part c + n ≤ int_bound → IsBounded c n
unfolding IsBounded is_endless ◌+ℤ◌ ◌-ℤ◌
bounded c n h k = (
  wrap-IsInt (c -ℤ pos n) (ground arith) (ground arith),
  wrap-IsInt (c +ℤ pos n) (ground arith) (ground arith),
  ground arith,
)

-- Whether a loop that ends lists the coordinates.
abbrev pub lists : GridCoord → Option (List GridCoord) → Bool
lists g none = false
lists g (some l) = elem g l

abbrev pub entries : Option (List GridCoord) → Option ℕ
entries none = none
entries (some l) = some (length l)

-- Loops that end list their square.
ends :
    (x x' y y' : ℤ) (b b' : Bool)
    → is_endless x' ≡ b
    → is_endless y' ≡ b'
    → b ≡ false
    → b' ≡ false
    → zones_between x x' y y' ≡ some (columns (rounds y y') (rounds x x') x y)
unfolding zones_between
ends x x' y y' true b' e e' h h' = cc
ends x x' y y' false true e e' h h' = cc
ends x x' y y' false false e e' h h' = rw (e, e') (never (ltb 0 (rounds x x')))
  where
    never :
        (b : Bool)
        → (if b && false then none else some (columns (rounds y y') (rounds x x') x y))
          ≡ some (columns (rounds y y') (rounds x x') x y)
    never true = refl
    never false = refl

square :
    (center : GridCoord) (n : ℕ)
    → IsBounded center.x n
    → IsBounded center.y n
    → adjacent_zones center (pos n)
      ≡ some (columns (suc (n + n)) (suc (n + n)) (center.x -ℤ pos n) (center.y -ℤ pos n))
unfolding adjacent_zones IsBounded
square center n (low_x, high_x, ends_x) (low_y, high_y, ends_y) =
    rw (low_x, high_x, low_y, high_y)
      (ends (center.x -ℤ pos n) (center.x +ℤ pos n) (center.y -ℤ pos n) (center.y +ℤ pos n) false
          false ends_x ends_y refl refl
        ∙ ap
            (λ k. some (
              columns (rounds (center.y -ℤ pos n) (center.y +ℤ pos n)) k (center.x -ℤ pos n)
                (center.y -ℤ pos n)))
            (rounds_around center.x n)
        ∙ ap (λ k. some (columns k (suc (n + n)) (center.x -ℤ pos n) (center.y -ℤ pos n)))
            (rounds_around center.y n))

-- For a radius n that is not negative, and coordinates of the centre such that the sums with n are
-- less than the greatest `int` and the differences are not below the least: `AdjacentZones` ends, and
-- lists exactly the coordinates at most n columns and n rows away, in (2 n + 1)² entries.
pub adjacent_zones_exact :
    (center g : GridCoord) (n : ℕ)
    → pos_part center.x + n + 1 < int_bound
    → neg_part center.x + n ≤ int_bound
    → pos_part center.y + n + 1 < int_bound
    → neg_part center.y + n ≤ int_bound
    → (lists g (adjacent_zones center (pos n)) ≡ (is_near n g.x center.x && is_near n g.y center.y))
      × (entries (adjacent_zones center (pos n)) ≡ some (suc (n + n) * suc (n + n)))
adjacent_zones_exact center g n right left up down =
    let all = square center n (bounded center.x n right left) (bounded center.y n up down) in
    (
      ap (lists g) all
          ∙ ground (
            arith,
            elem-columns (suc (n + n)) (suc (n + n)) (center.x -ℤ pos n) (center.y -ℤ pos n) g,
            in_run-around n center.x g.x,
            in_run-around n center.y g.y,
          ),
      ap entries all
          ∙ ap some
              (length-columns (suc (n + n)) (suc (n + n)) (center.x -ℤ pos n) (center.y -ℤ pos n)),
    )
