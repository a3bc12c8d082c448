-- ===== src/Base/Tests.antt =====
-- Boolean tests on numbers and keys, the conditional, and splits that keep the equation.
use Prim.Native.Nat.{ℕ, ◌≤◌, ◌<◌, compare, Ordering}
use Prim.Native.String.{String}
use mathlib.Core.Path.{◌≡◌, refl}
use mathlib.Core.Logic.{◌↔◌, ◌⊎◌, inl, inr}
use mathlib.Core.Bool.{Bool, true, false}
use mathlib.Core.Option.{Option, none, some}
use native.Mathlib.Omega.{arith}
use native.Mathlib.Decide.{ℕ_discrete}
use text.Mathlib.Text.{◌==◌ as str_eq}
use text.Mathlib.TextEquality.{eq_iff}

abbrev pub ltb : ℕ → ℕ → Bool
ltb a b = elim (compare a b) [ Ordering.lt ↦ true | _ ↦ false ]

abbrev pub leb : ℕ → ℕ → Bool
leb a b = elim (compare a b) [ Ordering.gt ↦ false | _ ↦ true ]

infix 1 if◌then◌else◌
abbrev pub if◌then◌else◌ {ℓ} : {A : Type ℓ} → Bool → A → A → A
if true then x else y = x
if false then x else y = y

pub ltb→lt : (a b : ℕ) → ltb a b ≡ true → a < b
ltb→lt a b h = ground arith

pub lt→ltb : (a b : ℕ) → a < b → ltb a b ≡ true
lt→ltb a b h = ground arith

pub leb→le : (a b : ℕ) → leb a b ≡ true → a ≤ b
leb→le a b h = ground arith

pub le→leb : (a b : ℕ) → a ≤ b → leb a b ≡ true
le→leb a b h = ground arith

pub ruleset tests = (arith, ltb→lt, lt→ltb, leb→le, le→leb)

pub Bool-cases : (b : Bool) → (b ≡ true) ⊎ (b ≡ false)
Bool-cases true = inl refl
Bool-cases false = inr refl

pub Option-cases {ℓ} : {A : Type ℓ} (o : Option A) → (o ≡ none) ⊎ ((a : A) × (o ≡ some a))
Option-cases none = inl refl
Option-cases (some a) = inr (a, refl)

-- A type whose values can be map keys: those that Go compares by `==`.
pub record Key {ℓ} (K : Type ℓ) : Type ℓ where
  pub dec : Discrete K

infix 50 ◌==◌
abbrev pub ◌==◌ {ℓ} : {K : Type ℓ} ⦃e : Key K⦄ → K → K → Bool
◌==◌ ⦃e⦄ a b = elim (e.dec a b) [ yes _ ↦ true | no _ ↦ false ]

dec_of_bool : (s t : String) (b : Bool) → ((b ≡ true) ↔ (s ≡ t)) → Dec (s ≡ t)
dec_of_bool s t true h = yes (h.0 refl)
dec_of_bool s t false h = no (λ e. cc (h.1 e))

unfoldable pub String_dec : Discrete String
unfolding dec_of_bool
String_dec s t = dec_of_bool s t (str_eq s t) (eq_iff s t)

instance abbrev pub string_key : Key String
string_key = record { dec = String_dec }

instance abbrev pub nat_key : Key ℕ
nat_key = record { dec = ℕ_discrete }

pub ne_of_test {ℓ} : {K : Type ℓ} ⦃e : Key K⦄ (a b : K) → (a == b) ≡ false → ¬ (a ≡ b)
ne_of_test a b h = ground arith

pub eq_of_test {ℓ} : {K : Type ℓ} ⦃e : Key K⦄ (a b : K) → (a == b) ≡ true → a ≡ b
eq_of_test a b h = ground arith
