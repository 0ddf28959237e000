-- ===== src/Base/Results.antt =====
-- Results of code that throws: a value or an exception of type `E`.

use mathlib.Core.Path.{◌≡◌, refl, ap, sym, ◌∙◌}
use mathlib.Core.Logic.{◌⊎◌, inl, inr}
use mathlib.Core.Option.{Option, none, some}

pub data Result {ℓ κ} (E : Type ℓ) (A : Type κ) : Type (ℓ ⊔ κ) where
  ok : A → Result E A
  err : E → Result E A

abbrev pub map_ok {ℓ κ μ} :
    {E : Type ℓ} {A : Type κ} {B : Type μ} → (A → B) → Result E A → Result E B
map_ok f (ok a) = ok (f a)
map_ok f (err e) = err e

-- What follows a step that may throw.
abbrev pub and_then {ℓ κ μ} :
    {E : Type ℓ} {A : Type κ} {B : Type μ} → Result E A → (A → Result E B) → Result E B
and_then (ok a) f = f a
and_then (err e) f = err e

pub Result-cases {ℓ κ} :
    {E : Type ℓ} {A : Type κ} (r : Result E A) → ((a : A) × (r ≡ ok a)) ⊎ ((e : E) × (r ≡ err e))
Result-cases (ok a) = inl (a, refl)
Result-cases (err e) = inr (e, refl)

abbrev or_else {ℓ κ} : {E : Type ℓ} {A : Type κ} → A → Result E A → A
or_else d (ok a) = a
or_else d (err e) = d

abbrev or_default {κ} : {A : Type κ} → A → Option A → A
or_default d (some a) = a
or_default d none = d

-- One result has one value.
pub ok-injective {ℓ κ} :
    {E : Type ℓ} {A : Type κ} (r : Result E A) (a b : A) → r ≡ ok a → r ≡ ok b → a ≡ b
ok-injective r a b h k = ap (or_else b) (sym h ∙ k)

pub some-injective {κ} : {A : Type κ} (a b : A) → some a ≡ some b → a ≡ b
some-injective a b h = ap (or_default b) h
