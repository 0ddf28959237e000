-- ===== src/Base/Tests.antt =====
-- Boolean tests on the native numbers, the conditional, case splits that keep the equation, and
-- equality as an interface.
use Prim.Native.Nat.{ℕ, compare, Ordering}
use mathlib.Core.Path.{◌≡◌, refl}
use mathlib.Core.Logic.{◌↔◌, ◌≢◌, ◌⊎◌, inl, inr}
use mathlib.Core.Bool.{Bool, true, false}
use mathlib.Core.Option.{Option, none, some}
use native.Mathlib.Omega.{arith}

abbrev pub ltb : ℕ → ℕ → Bool
ltb a b = elim (compare a b) [ Ordering.lt ↦ true | _ ↦ false ]

abbrev pub leb : ℕ → ℕ → Bool
leb a b = elim (compare a b) [ Ordering.gt ↦ false | _ ↦ true ]

abbrev pub nat_beq : ℕ → ℕ → Bool
nat_beq a b = elim (compare a b) [ Ordering.eq ↦ true | _ ↦ false ]

infix 1 if◌then◌else◌
abbrev pub if◌then◌else◌ {ℓ} : {A : Type ℓ} → Bool → A → A → A
if true then x else y = x
if false then x else y = y

pub nat_beq_iff : (a b : ℕ) → (nat_beq a b ≡ true) ↔ (a ≡ b)
nat_beq_iff a b = ground arith

pub Bool-cases : (b : Bool) → (b ≡ true) ⊎ (b ≡ false)
Bool-cases true = inl refl
Bool-cases false = inr refl

pub Option-cases {ℓ} : {A : Type ℓ} (o : Option A) → (o ≡ none) ⊎ ((a : A) × (o ≡ some a))
Option-cases none = inl refl
Option-cases (some a) = inr (a, refl)

infix 50 ◌==◌
-- Equality that a program computes: `==` of the source at each type of key.
pub record HasEquality {ℓ} (K : Type ℓ) : Type ℓ where
  pub equal : (k j : K) → Bool
  pub equal_iff : (k j : K) → (equal k j ≡ true) ↔ (k ≡ j)

abbrev pub ◌==◌ {ℓ} : {K : Type ℓ} ⦃e : HasEquality K⦄ → K → K → Bool
◌==◌ ⦃e⦄ = e.equal

instance abbrev pub nat_eq : HasEquality ℕ
nat_eq = record { equal = nat_beq; equal_iff = nat_beq_iff }

module _ {ℓ} {K : Type ℓ} ⦃e : HasEquality K⦄ where
  pub beq_self : (a : K) → (a == a) ≡ true
  beq_self a = (e.equal_iff a a).1 refl

  pub beq_ne : (a b : K) → a ≢ b → (a == b) ≡ false
  beq_ne a b h = elim (Bool-cases (a == b)) [
    | inl same ↦ absurd (h ((e.equal_iff a b).0 same))
    | inr other ↦ other
  ]

  pub ne_of_beq : (a b : K) → (a == b) ≡ false → a ≢ b
  ne_of_beq a b h same = cc ((e.equal_iff a b).1 same)
