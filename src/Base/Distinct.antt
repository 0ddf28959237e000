-- ===== src/Base/Distinct.antt =====
-- Lists of rows whose keys differ.
use mathlib.Core.Path.{◌≡◌, refl, sym, ap, ◌∙◌}
use mathlib.Core.Logic.{◌≢◌, inl, inr}
use mathlib.Core.List.{List, [], ◌∷◌, ◌++◌, Memᴰ, map}
use mathlib.Core.List.Memᴰ

module _ {ℓ κ} {A : Type ℓ} {K : Type κ} (key : A → K) where
  -- No key stands twice.
  abbrev pub AreDistinct : List A → Type (ℓ ⊔ κ)
  AreDistinct [] = Unit
  AreDistinct (x ∷ xs) = ((a : A) → Memᴰ a xs → key a ≢ key x) × AreDistinct xs

  -- A row with a new key goes to the end.
  pub AreDistinct-append :
      (xs : List A) (new : A)
      → AreDistinct xs
      → ((a : A) → Memᴰ a xs → key a ≢ key new)
      → AreDistinct (xs ++ new ∷ [])
  AreDistinct-append [] new h k = (λ a m. elim m [ ], tt)
  AreDistinct-append (x ∷ xs) new (h, t) k = (
    λ a m. elim (Memᴰ.append_cases xs m) [
      | inl old ↦ h a old
      | inr last ↦ elim (Memᴰ.cases_cons last) [
        | inl same ↦ λ e. k x (Memᴰ.head refl) (sym e ∙ ap key same)
        | inr none_left ↦ elim none_left [ ]
      ]
    ],
    AreDistinct-append xs new t (λ a m. k a (Memᴰ.tail m)),
  )

  mem_map : (f : A → A) (a : A) (xs : List A) → Memᴰ a (map f xs) → (b : A) × Memᴰ b xs × (a ≡ f b)
  mem_map f a [] m = elim m [ ]
  mem_map f a (x ∷ xs) m = elim (Memᴰ.cases_cons m) [
    | inl same ↦ (x, Memᴰ.head refl, same)
    | inr later ↦ let (b, i, e) = mem_map f a xs later in (b, Memᴰ.tail i, e)
  ]

  -- A change that leaves the keys as they are.
  pub AreDistinct-map :
      (f : A → A) (xs : List A)
      → ((a : A) → key (f a) ≡ key a)
      → AreDistinct xs
      → AreDistinct (map f xs)
  AreDistinct-map f [] same h = tt
  AreDistinct-map f (x ∷ xs) same (h, t) = (
    λ a m e. let (b, i, k) = mem_map f a xs m in h b i (sym (same b) ∙ ap key (sym k) ∙ e ∙ same x),
    AreDistinct-map f xs same t,
  )
