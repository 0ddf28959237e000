-- ===== src/Base/Assoc/Entries.antt =====
-- The entries of a map: a map whose keys differ holds exactly what `find` finds.
use leadertask_userver.Base.{
  ◌≡◌, refl, sym, ◌∙◌, ap, ◌≢◌, ◌↔◌, inl, inr, none, some, List, [], ◌∷◌, ◌++◌, Memᴰ, All, arith,
  HasEquality, ◌==◌, Bool-cases, ne_of_beq, Permᴰ, first, if◌then◌else◌,
}
use leadertask_userver.Base.Assoc.{find, emplace}
use mathlib.Core.List.Permᴰ

module _ {ℓ κ} {K : Type ℓ} {V : Type κ} where
  abbrev pub values : List (K × V) → List V
  values [] = []
  values ((k, v) ∷ m) = v ∷ values m

  pub values-append : (m n : List (K × V)) → values (m ++ n) ≡ values m ++ values n
  values-append [] n = refl
  values-append ((k, v) ∷ m) n = ap (λ r. v ∷ r) (values-append m n)

  -- A loop over the map meets its values, in another order.
  pub values-Permᴰ : (m n : List (K × V)) → Permᴰ m n → Permᴰ (values m) (values n)
  values-Permᴰ m n p = Permᴰ.map (λ e. e.1) p

  -- Each value stands under its own key.
  abbrev pub IsKeyed : (V → K) → List (K × V) → Type ℓ
  IsKeyed key m = All (λ e. key e.1 ≡ e.0) m

module _ {ℓ κ} {K : Type ℓ} {V : Type κ} ⦃e : HasEquality K⦄ where
  -- No key stands twice.
  abbrev pub IsDistinct : List (K × V) → Type κ
  IsDistinct [] = Unit
  IsDistinct ((k, v) ∷ m) = (find k m ≡ none) × IsDistinct m

  pub emplace_fresh :
      (k : K) (v : V) (m : List (K × V)) → find k m ≡ none → emplace k v m ≡ m ++ (k, v) ∷ []
  unfolding find emplace
  emplace_fresh k v [] h = refl
  emplace_fresh k v ((j, w) ∷ m) h = ground (arith, emplace_fresh k v m)

  find-append_fresh :
      (j k : K) (v : V) (m : List (K × V)) → j ≢ k → find j (m ++ (k, v) ∷ []) ≡ find j m
  unfolding find
  find-append_fresh j k v [] h = ground (arith, e.equal_iff k j)
  find-append_fresh j k v ((i, w) ∷ m) h = ground (arith, find-append_fresh j k v m h)

  pub IsDistinct-append :
      (k : K) (v : V) (m : List (K × V))
      → find k m ≡ none
      → IsDistinct m
      → IsDistinct (m ++ (k, v) ∷ [])
  unfolding find
  IsDistinct-append k v [] h d = (refl, tt)
  IsDistinct-append k v ((j, w) ∷ m) h (fresh, d) = elim (Bool-cases (j == k)) [
    | inl same ↦ cc (rw (same, find) at h)
    | inr other ↦ (
      find-append_fresh j k v m (ne_of_beq j k other) ∙ fresh,
      IsDistinct-append k v m (rw (other, find) at h) d,
    )
  ]

  -- A lookup gives the first value with the key.
  pub find-values :
      (key : V → K) (k : K) (m : List (K × V))
      → IsKeyed key m
      → find k m ≡ first (λ v. key v == k) (values m)
  unfolding find first
  find-values key k [] h = refl
  find-values key k ((j, v) ∷ m) (own, h) =
      rw (← own) (ap (λ o. if key v == k then some v else o) (find-values key k m h))

  -- Under distinct keys that are the values' own, a value is in the map exactly if its key finds it.
  module _ (key : V → K) where
    pub find_sound :
        (k : K) (v : V) (m : List (K × V))
        → IsKeyed key m
        → find k m ≡ some v
        → Memᴰ v (values m) × (key v ≡ k)
    unfolding find
    find_sound k v [] keyed h = cc
    find_sound k v ((j, w) ∷ m) (own, keyed) h = elim (Bool-cases (j == k)) [
      | inl same ↦
          let hit : some w ≡ some v = rw (same, find) at h in
          let eq : w ≡ v = cc hit in
          (Memᴰ.head (sym eq), ap key (sym eq) ∙ own ∙ (e.equal_iff j k).0 same)
      | inr other ↦ let (i, q) = find_sound k v m keyed (rw (other, find) at h) in (Memᴰ.tail i, q)
    ]

    find_complete :
        (v : V) (m : List (K × V))
        → IsKeyed key m
        → IsDistinct m
        → Memᴰ v (values m)
        → find (key v) m ≡ some v
    unfolding find
    find_complete v [] keyed d i = elim i [ ]
    find_complete v ((j, w) ∷ m) (own, keyed) (fresh, d) (Memᴰ.head same) =
        rw ((e.equal_iff j (key v)).1 (sym own ∙ ap key (sym same))) (ap some (sym same))
    find_complete v ((j, w) ∷ m) (own, keyed) (fresh, d) (Memᴰ.tail i) =
        let found = find_complete v m keyed d i in
        elim (Bool-cases (j == key v)) [
          | inl same ↦
              let clash : find (key v) m ≡ none =
                ap (λ k. find k m) (sym ((e.equal_iff j (key v)).0 same)) ∙ fresh in
              cc (clash, found)
          | inr other ↦ rw other found
        ]

    pub mem-values_iff :
        (v : V) (m : List (K × V))
        → IsKeyed key m
        → IsDistinct m
        → Memᴰ v (values m) ↔ (find (key v) m ≡ some v)
    mem-values_iff v m keyed d =
        (find_complete v m keyed d, λ h. (find_sound (key v) v m keyed h).0)
