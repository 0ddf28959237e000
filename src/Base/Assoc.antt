-- ===== src/Base/Assoc.antt =====
-- `std::unordered_map` as an association list: `find`, `contains`, `emplace`, `operator[]` with an
-- assignment, and a write through an iterator. A loop over the map meets the
-- entries in any order.
pub mod Entries
use mathlib.Core.Option
use leadertask_userver.Base.{
  ◌≡◌, refl, Bool, true, false, Option, none, some, List, [], ◌∷◌, arith, if◌then◌else◌,
  HasEquality, ◌==◌, Permᴰ,
}

abbrev pub is_some {ℓ} : {A : Type ℓ} → Option A → Bool
is_some none = false
is_some (some v) = true

module _ {ℓ κ} {K : Type ℓ} {V : Type κ} ⦃e : HasEquality K⦄ where
  unfoldable pub find : K → List (K × V) → Option V
  find k [] = none
  find k ((j, v) ∷ m) = let rest = find k m in if j == k then some v else rest

  unfoldable pub contains : K → List (K × V) → Bool
  contains k m = is_some (find k m)

  -- `m[k] = v`: an entry that is there is overwritten in its place.
  unfoldable pub assign : K → V → List (K × V) → List (K × V)
  assign k v [] = (k, v) ∷ []
  assign k v ((j, w) ∷ m) = let rest = assign k v m in if j == k then (j, v) ∷ m else (j, w) ∷ rest

  -- `m.emplace(k, v)`: an entry that is there stays.
  unfoldable pub emplace : K → V → List (K × V) → List (K × V)
  emplace k v [] = (k, v) ∷ []
  emplace k v ((j, w) ∷ m) =
      let rest = emplace k v m in if j == k then (j, w) ∷ m else (j, w) ∷ rest

  -- A write to the entry that `find` reached.
  unfoldable pub modify : K → (V → V) → List (K × V) → List (K × V)
  modify k f [] = []
  modify k f ((j, w) ∷ m) =
      let rest = modify k f m in if j == k then (j, f w) ∷ m else (j, w) ∷ rest

  pub find-assign :
      (k j : K) (v : V) (m : List (K × V))
      → find j (assign k v m) ≡ (if k == j then some v else find j m)
  unfolding find assign
  find-assign k j v [] = refl
  find-assign k j v ((i, w) ∷ m) =
      ground (arith, e.equal_iff i k, e.equal_iff i j, e.equal_iff k j, find-assign k j v m)

  pub find-emplace :
      (k j : K) (v : V) (m : List (K × V))
      → find k m ≡ none
      → find j (emplace k v m) ≡ (if k == j then some v else find j m)
  unfolding find emplace
  find-emplace k j v [] h = refl
  find-emplace k j v ((i, w) ∷ m) h =
      ground (arith, e.equal_iff i k, e.equal_iff i j, e.equal_iff k j, find-emplace k j v m)

  pub find-modify :
      (k j : K) (f : V → V) (m : List (K × V))
      → find j (modify k f m) ≡ (if k == j then Option.map f (find j m) else find j m)
  unfolding find modify
  find-modify k j f [] = ground arith
  find-modify k j f ((i, w) ∷ m) =
      ground (arith, e.equal_iff i k, e.equal_iff i j, e.equal_iff k j, find-modify k j f m)

-- An order in which a loop meets the entries of a map: the source leaves it open.
pub record Iteration {ℓ κ} (K : Type ℓ) (V : Type κ) : Type (ℓ ⊔ κ) where
  pub order : List (K × V) → List (K × V)
  pub permuted : (m : List (K × V)) → Permᴰ (order m) m
