-- ===== src/Tests/Memory.antt =====
-- Lists that hand out ids from a counter, for the tables of the tests.
use leadertask_userver.Base.{
  ℕ, suc, ◌+◌, ◌<◌, ◌≡◌, ◌≢◌, refl, sym, ◌∙◌, ap, Bool, true, false, List, [], ◌∷◌, ◌++◌, map, Memᴰ,
  if◌then◌else◌, Bool-cases, inl, inr, All, All-append, All-mem, arith,
}
use leadertask_userver.Base.Int.{ℤ, pos, pos_part}

module _ {A : Type 0} (id_of : A → ℤ) where
  -- Rows whose ids are below the counter.
  pub record Rows : Type 0 where
    pub next : ℕ
    pub rows : List A
    pub below : All (λ a. (n : ℕ) × (id_of a ≡ pos n) × (n < next)) rows

  abbrev pub no_rows : Rows
  no_rows = record { next = 1; rows = []; below = tt }

  below_mono :
      (a b : ℕ) (xs : List A)
      → a < suc b
      → All (λ x. (n : ℕ) × (id_of x ≡ pos n) × (n < a)) xs
      → All (λ x. (n : ℕ) × (id_of x ≡ pos n) × (n < b)) xs
  below_mono a b [] h k = tt
  below_mono a b (x ∷ xs) h ((n, e, l), k) = ((n, e, omega arith), below_mono a b xs h k)

  pub added_below :
      (s : Rows) (a : A)
      → id_of a ≡ pos s.next
      → All (λ x. (n : ℕ) × (id_of x ≡ pos n) × (n < s.next + 1)) (s.rows ++ a ∷ [])
  added_below s a e =
      All-append _ s.rows (a ∷ []) (below_mono s.next (s.next + 1) s.rows (omega arith) s.below)
        ((s.next, e, omega arith), tt)

  abbrev pub add : (s : Rows) (a : A) → id_of a ≡ pos s.next → Rows
  add s a e = record { next = s.next + 1; rows = s.rows ++ a ∷ []; below = added_below s a e }

  pub next_is_new : (s : Rows) (a : A) → Memᴰ a s.rows → id_of a ≢ pos s.next
  next_is_new s a m e =
      let (n, own, less) = All-mem _ a s.rows s.below m in
      let same : n ≡ s.next = ap pos_part (sym own ∙ e) in omega (arith, less, same)

  pub changed_below :
      (f : A → A) (next : ℕ) (xs : List A)
      → ((a : A) → id_of (f a) ≡ id_of a)
      → All (λ x. (n : ℕ) × (id_of x ≡ pos n) × (n < next)) xs
      → All (λ x. (n : ℕ) × (id_of x ≡ pos n) × (n < next)) (map f xs)
  changed_below f next [] h k = tt
  changed_below f next (x ∷ xs) h ((n, e, l), k) = ((n, h x ∙ e, l), changed_below f next xs h k)

  abbrev pub change : (f : A → A) → ((a : A) → id_of (f a) ≡ id_of a) → Rows → Rows
  change f h s = record s { rows = map f s.rows; below = changed_below f s.next s.rows h s.below }

-- Whether some element passes.
unfoldable pub any {ℓ} : {A : Type ℓ} → (A → Bool) → List A → Bool
any p [] = false
any p (x ∷ xs) = let rest = any p xs in if p x then true else rest

pub any_sound {ℓ} :
    {A : Type ℓ} (p : A → Bool) (xs : List A) → any p xs ≡ true → (a : A) × Memᴰ a xs × (p a ≡ true)
unfolding any
any_sound p [] h = cc h
any_sound p (x ∷ xs) h = elim (Bool-cases (p x)) [
  | inl pass ↦ (x, Memᴰ.head refl, pass)
  | inr fail ↦ let (a, m, q) = any_sound p xs (rw fail at h) in (a, Memᴰ.tail m, q)
]

pub any_complete {ℓ} :
    {A : Type ℓ} (p : A → Bool) (a : A) (xs : List A) → Memᴰ a xs → p a ≡ true → any p xs ≡ true
unfolding any
any_complete p a [] m q = elim m [ ]
any_complete p a (x ∷ xs) (Memᴰ.head e) q = rw (ap p (sym e) ∙ q)
any_complete p a (x ∷ xs) (Memᴰ.tail m) q = elim (Bool-cases (p x)) [
  | inl pass ↦ rw pass
  | inr fail ↦ rw fail (any_complete p a xs m q)
]
