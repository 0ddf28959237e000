-- ===== src/Storage/Tasks/Spec/Rows.antt =====
-- The map by id of `TasksStorage` (src/tasks_storage.hpp) as the list of its values.
use mathlib.Core.List.Memᴰ
use leadertask_userver.Base.{
  first, ℕ, suc, ◌≡◌, ◌≢◌, refl, sym, ◌∙◌, ap, true, false, none, some, List, [], ◌∷◌, map, Memᴰ,
  if◌then◌else◌, ◌==◌, arith, inl, inr, Bool-cases, length, AreDistinct, beq_ne, some-injective,
}
use leadertask_userver.Base.Int.{ℤ, pos, int_eq, int_beq_iff}
use leadertask_userver.Base.Assoc.{find, modify}
use leadertask_userver.Storage.Status.{TaskStatus}
use leadertask_userver.Storage.Tasks.{TaskRecord, with_status}
use leadertask_userver.Storage.Tasks.Views.{values, IsKeyed}
use leadertask_userver.Storage.Tasks.Spec.{is_task_of, set_status, id_of}

pub find-values :
    (next : ℕ) (k : ℤ) (m : List (ℤ × TaskRecord))
    → IsKeyed next m
    → find k m ≡ first (λ t. t.id == k) (values m)
unfolding find first
find-values next k [] h = refl
find-values next k ((j, t) ∷ m) (e, b, h) =
    rw (← e) (ap (λ o. if t.id == k then some t else o) (find-values next k m h))

pub new_id :
    (next : ℕ) (m : List (ℤ × TaskRecord))
    → IsKeyed next m
    → (t : TaskRecord) → Memᴰ t (values m)
    → t.id ≢ pos next
new_id next [] h t i = elim i [ ]
new_id next ((j, u) ∷ m) (e, (n, f, l), h) t i = elim (Memᴰ.cases_cons i) [
  | inl same ↦ λ k. let both : n ≡ next = cc (same, e, f, k) in omega (arith, both, l)
  | inr later ↦ new_id next m h t later
]

-- No row but the first has its id.
module _ (g k : ℤ) (st : TaskStatus) where
  map-other :
      (rows : List TaskRecord)
      → ((t : TaskRecord) → Memᴰ t rows → t.id ≢ k)
      → map (set_status g k st) rows ≡ rows
  map-other [] h = refl
  map-other (t ∷ rows) h =
      rw (beq_ne t.id k (h t (Memᴰ.head refl)), map-other rows (λ u i. h u (Memᴰ.tail i))) refl

  first-other :
      (rows : List TaskRecord)
      → ((t : TaskRecord) → Memᴰ t rows → t.id ≢ k)
      → first (is_task_of g k) rows ≡ none
  unfolding first
  first-other [] h = refl
  first-other (t ∷ rows) h =
      rw (beq_ne t.id k (h t (Memᴰ.head refl))) (first-other rows (λ u i. h u (Memᴰ.tail i)))

  others :
      (t : TaskRecord) (rows : List TaskRecord)
      → ((u : TaskRecord) → Memᴰ u rows → u.id ≢ t.id)
      → (t.id == k) ≡ true
      → (u : TaskRecord) → Memᴰ u rows
      → u.id ≢ k
  others t rows h same u i e = h u i (e ∙ sym ((int_beq_iff t.id k).0 same))

  -- A task that is found by its id and in the goal is the one that the list changes.
  pub values-modify :
      (next : ℕ) (t : TaskRecord) (m : List (ℤ × TaskRecord))
      → IsKeyed next m
      → AreDistinct id_of (values m)
      → find k m ≡ some t
      → t.goal_id ≡ g
      → (values (modify k (with_status st) m) ≡ map (set_status g k st) (values m))
        × (first (is_task_of g k) (values m) ≡ some t)
  unfolding find modify first
  values-modify next t [] h d e own = cc e
  values-modify next t ((j, u) ∷ m) (i, b, h) (fresh, d) e own = elim (Bool-cases (u.id == k)) [
    | inl same ↦
        let key : (j == k) ≡ true = ap (λ z. z == k) (sym i) ∙ same in
        let here : u ≡ t = some-injective u t (rw key at e) in
        let in_goal : (u.goal_id == g) ≡ true =
          (int_beq_iff u.goal_id g).1 (ap (λ (v : TaskRecord). v.goal_id) here ∙ own) in
        rw (key, same, in_goal, map-other (values m) (others u (values m) fresh same))
          (refl, ap (λ v. some v) here)
    | inr other ↦
        let key : (j == k) ≡ false = ap (λ z. z == k) (sym i) ∙ other in
        let (written, there) = values-modify next t m h d (rw key at e) own in
        rw (key, other) (ap (λ l. u ∷ l) written, there)
  ]

  -- A task that is missing, or in another goal, is not in the list with the goal.
  pub first-refused :
      (next : ℕ) (m : List (ℤ × TaskRecord))
      → IsKeyed next m
      → AreDistinct id_of (values m)
      → ((t : TaskRecord) → find k m ≡ some t → t.goal_id ≢ g)
      → first (is_task_of g k) (values m) ≡ none
  unfolding find first
  first-refused next [] h d bad = refl
  first-refused next ((j, u) ∷ m) (i, b, h) (fresh, d) bad = elim (Bool-cases (u.id == k)) [
    | inl same ↦
        let key : (j == k) ≡ true = ap (λ z. z == k) (sym i) ∙ same in
        rw (same, beq_ne u.goal_id g (bad u (rw key refl)))
          (first-other (values m) (others u (values m) fresh same))
    | inr other ↦
        let key : (j == k) ≡ false = ap (λ z. z == k) (sym i) ∙ other in
        rw other (first-refused next m h d (λ t e. bad t (rw key e)))
  ]

pub set_status_id :
    (g id : ℤ) (st : TaskStatus) (t : TaskRecord) → id_of (set_status g id st t) ≡ id_of t
set_status_id g id st t = elim (Bool-cases (is_task_of g id t)) [
  | inl own ↦ rw own refl
  | inr other ↦ rw other refl
]

pub length-map :
    (f : TaskRecord → TaskRecord) (rows : List TaskRecord) → length (map f rows) ≡ length rows
length-map f [] = refl
length-map f (t ∷ rows) = ap suc (length-map f rows)
