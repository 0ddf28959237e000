-- ===== src/Base/Perms.antt =====
-- Lists with the same elements in another order.
use mathlib.Core.Path.{◌≡◌, sym, ◌∙◌, ap}
use mathlib.Core.Logic.{inl, inr}
use mathlib.Core.Bool.{Bool}
use mathlib.Core.List.{List, ◌∷◌, Memᴰ, Permᴰ}
use mathlib.Core.List.Memᴰ
use mathlib.Core.List.Permᴰ
use leadertask_userver.Base.Tests.{Bool-cases}
use leadertask_userver.Base.Lists.{filter}

module _ {ℓ} {A : Type ℓ} where
  pub mem-Permᴰ : (a : A) (xs ys : List A) → Permᴰ xs ys → Memᴰ a xs → Memᴰ a ys
  mem-Permᴰ a _ _ Permᴰ.nil m = m
  mem-Permᴰ a _ _ (Permᴰ.cons {l₁ = xs} {l₂ = ys} e p) m = elim (Memᴰ.cases_cons m) [
    | inl same ↦ Memᴰ.head (same ∙ e)
    | inr later ↦ Memᴰ.tail (mem-Permᴰ a xs ys p later)
  ]
  mem-Permᴰ a _ _ (Permᴰ.swap e f) m = elim (Memᴰ.cases_cons m) [
    | inl same ↦ Memᴰ.tail (Memᴰ.head (same ∙ e))
    | inr later ↦ elim (Memᴰ.cases_cons later) [
      | inl same ↦ Memᴰ.head (same ∙ f)
      | inr last ↦ Memᴰ.tail (Memᴰ.tail last)
    ]
  ]
  mem-Permᴰ a xs zs (Permᴰ.trans {l₂ = ys} p q) m = mem-Permᴰ a ys zs q (mem-Permᴰ a xs ys p m)

  module _ (test : A → Bool) where
    filter_cons :
        (a b : A) (xs ys : List A)
        → a ≡ b
        → Permᴰ (filter test xs) (filter test ys)
        → Permᴰ (filter test (a ∷ xs)) (filter test (b ∷ ys))
    unfolding filter
    filter_cons a b xs ys e p = elim (Bool-cases (test a)) [
      | inl pass ↦ rw (pass, ap test (sym e) ∙ pass) (Permᴰ.cons e p)
      | inr fails ↦ rw (fails, ap test (sym e) ∙ fails) p
    ]

    filter_swap :
        (a b c d : A) (xs : List A)
        → a ≡ d
        → b ≡ c
        → Permᴰ (filter test (a ∷ b ∷ xs)) (filter test (c ∷ d ∷ xs))
    unfolding filter
    filter_swap a b c d xs e f = elim (Bool-cases (test a)) [
      | inl pa ↦ elim (Bool-cases (test b)) [
        | inl pb ↦ rw (pa, pb, ap test (sym e) ∙ pa, ap test (sym f) ∙ pb) (Permᴰ.swap e f)
        | inr nb ↦
            rw (pa, nb, ap test (sym e) ∙ pa, ap test (sym f) ∙ nb) (Permᴰ.cons e (Permᴰ.refl _))
      ]
      | inr na ↦ elim (Bool-cases (test b)) [
        | inl pb ↦
            rw (na, pb, ap test (sym e) ∙ na, ap test (sym f) ∙ pb) (Permᴰ.cons f (Permᴰ.refl _))
        | inr nb ↦ rw (na, nb, ap test (sym e) ∙ na, ap test (sym f) ∙ nb) (Permᴰ.refl _)
      ]
    ]

    pub filter-Permᴰ : (xs ys : List A) → Permᴰ xs ys → Permᴰ (filter test xs) (filter test ys)
    filter-Permᴰ _ _ Permᴰ.nil = Permᴰ.refl _
    filter-Permᴰ _ _ (Permᴰ.cons {a = a} {b = b} {l₁ = xs} {l₂ = ys} e p) =
        filter_cons a b xs ys e (filter-Permᴰ xs ys p)
    filter-Permᴰ _ _ (Permᴰ.swap {a = a} {b = b} {a' = c} {b' = d} {l = xs} e f) =
        filter_swap a b c d xs e f
    filter-Permᴰ xs zs (Permᴰ.trans {l₂ = ys} p q) =
        Permᴰ.trans (filter-Permᴰ xs ys p) (filter-Permᴰ ys zs q)
