-- ===== src/Base/Lists.antt =====
-- Lists: length over the native numbers, filtering by a Boolean test, a predicate on every element.
use Prim.Native.Nat.{ℕ, suc, ◌+◌}
use mathlib.Core.Path.{◌≡◌, refl, ap, ◌∙◌}
use mathlib.Core.Logic.{◌⊎◌, ◌≢◌, inl, inr, ◌↔◌}
use mathlib.Core.Bool.{Bool, true, false}
use mathlib.Core.Option.{Option, none, some}
use mathlib.Core.List.{List, [], ◌∷◌, ◌++◌, Memᴰ, map}
use mathlib.Core.List.Memᴰ
use native.Mathlib.Omega.{arith}
use leadertask_userver.Base.Tests.{if◌then◌else◌, Bool-cases}

module _ {ℓ} {A : Type ℓ} where
  abbrev pub length : List A → ℕ
  length [] = 0
  length (x ∷ xs) = suc (length xs)

  abbrev pub is_empty : List A → Bool
  is_empty [] = true
  is_empty (x ∷ xs) = false

  pub List-cases : (xs : List A) → (xs ≡ []) ⊎ (xs ≢ [])
  List-cases [] = inl refl
  List-cases (x ∷ xs) = inr cc

  unfoldable pub filter : (A → Bool) → List A → List A
  filter p [] = []
  filter p (x ∷ xs) = let rest = filter p xs in if p x then x ∷ rest else rest

  -- The first element that passes.
  unfoldable pub first : (A → Bool) → List A → Option A
  first p [] = none
  first p (x ∷ xs) = let rest = first p xs in if p x then some x else rest

  pub length-append : (xs ys : List A) → length (xs ++ ys) ≡ length xs + length ys
  length-append [] ys = omega arith
  length-append (x ∷ xs) ys = omega (arith, length-append xs ys)

  -- The filtered list has exactly the elements that pass the test.
  pub filter_sound :
      (p : A → Bool) (a : A) (xs : List A) → Memᴰ a (filter p xs) → Memᴰ a xs × (p a ≡ true)
  unfolding filter
  filter_sound p a [] h = elim h [ ]
  filter_sound p a (x ∷ xs) h = elim (Bool-cases (p x)) [
    | inl pass ↦ elim (Memᴰ.cases_cons (rw (pass, filter) at h)) [
      | inl e ↦ (Memᴰ.head e, ap p e ∙ pass)
      | inr m ↦ let (i, q) = filter_sound p a xs m in (Memᴰ.tail i, q)
    ]
    | inr fail ↦ let (i, q) = filter_sound p a xs (rw (fail, filter) at h) in (Memᴰ.tail i, q)
  ]

  pub filter_complete :
      (p : A → Bool) (a : A) (xs : List A) → Memᴰ a xs → p a ≡ true → Memᴰ a (filter p xs)
  unfolding filter
  filter_complete p a [] m q = elim m [ ]
  filter_complete p a (x ∷ xs) (Memᴰ.head e) q =
      let pass : p x ≡ true = rw (← e) q in rw pass (Memᴰ.head e)
  filter_complete p a (x ∷ xs) (Memᴰ.tail m) q = elim (Bool-cases (p x)) [
    | inl pass ↦ rw pass (Memᴰ.tail (filter_complete p a xs m q))
    | inr fail ↦ rw fail (filter_complete p a xs m q)
  ]

  pub filter-mem_iff :
      (p : A → Bool) (a : A) (xs : List A) → Memᴰ a (filter p xs) ↔ (Memᴰ a xs × (p a ≡ true))
  filter-mem_iff p a xs = (filter_sound p a xs, λ (m, q). filter_complete p a xs m q)

  pub filter-append :
      (p : A → Bool) (xs ys : List A) → filter p (xs ++ ys) ≡ filter p xs ++ filter p ys
  unfolding filter
  filter-append p [] ys = refl
  filter-append p (x ∷ xs) ys = ground (arith, filter-append p xs ys)

  -- Two tests that agree on the elements of a list filter it alike.
  pub filter-congr :
      (p q : A → Bool) (xs : List A) → ((a : A) → p a ≡ q a) → filter p xs ≡ filter q xs
  unfolding filter
  filter-congr p q [] h = refl
  filter-congr p q (x ∷ xs) h = ground (arith, h x, filter-congr p q xs h)

module _ {ℓ κ} {A : Type ℓ} where
  abbrev pub All : (A → Type κ) → List A → Type κ
  All P [] = Unit
  All P (x ∷ xs) = P x × All P xs

  pub All-append : (P : A → Type κ) (xs ys : List A) → All P xs → All P ys → All P (xs ++ ys)
  All-append P [] ys hx hy = hy
  All-append P (x ∷ xs) ys hx hy = (hx.0, All-append P xs ys hx.1 hy)

  pub All-mem : (P : A → Type κ) (a : A) (xs : List A) → All P xs → Memᴰ a xs → P a
  All-mem P a [] h m = elim m [ ]
  All-mem P a (x ∷ xs) h (Memᴰ.head e) = rw e h.0
  All-mem P a (x ∷ xs) h (Memᴰ.tail m) = All-mem P a xs h.1 m

  -- One element is taken out.
  pub All-remove :
      (P : A → Type κ) (xs ys : List A) (a : A) → All P (xs ++ a ∷ ys) → All P (xs ++ ys) × P a
  All-remove P [] ys a (h, k) = (k, h)
  All-remove P (x ∷ xs) ys a (h, k) =
      let (others, own) = All-remove P xs ys a k in ((h, others), own)

  pub All-intro : (P : A → Type κ) (xs : List A) → ((a : A) → Memᴰ a xs → P a) → All P xs
  All-intro P [] h = tt
  All-intro P (x ∷ xs) h = (h x (Memᴰ.head refl), All-intro P xs (λ a m. h a (Memᴰ.tail m)))

  pub map-map_id :
      {B : Type κ} (f : A → B) (g : B → A) (xs : List A)
      → ((a : A) → g (f a) ≡ a)
      → map g (map f xs) ≡ xs
  map-map_id f g [] h = refl
  map-map_id f g (x ∷ xs) h = cc (h x, map-map_id f g xs h)
