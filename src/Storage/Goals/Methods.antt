-- ===== src/Storage/Goals/Methods.antt =====
-- What the methods of `GoalsStorage` do, and what holds after any history of calls.
use leadertask_userver.Base.{
  ℕ, suc, ◌+◌, ◌<◌, ◌≡◌, refl, ◌↔◌, none, some, List, [], ◌∷◌, Memᴰ, All, All-append, if◌then◌else◌,
  Bytes, ◌==◌, arith, filter, filter-mem_iff, mem-Permᴰ,
}
use leadertask_userver.Base.Int.{ℤ, pos, int_eq, int_beq_iff}
use mathlib.Core.List.Permᴰ
use leadertask_userver.Base.Assoc.{find, find-emplace, Iteration}
use leadertask_userver.Base.Assoc.Entries.{
  values, values-Permᴰ, IsKeyed, IsDistinct, IsDistinct-append, emplace_fresh, mem-values_iff,
}
use leadertask_userver.Storage.Goals.{
  GoalRecord, GoalsStorage, new_storage, create_goal, get_by_id, collect, get_goals_by_user,
}

-- Every id has been handed out.
abbrev pub IsFresh : ℕ → List (ℤ × GoalRecord) → Type 0
IsFresh next m = All (λ e. (n : ℕ) × (e.0 ≡ pos n) × (n < next)) m

pub record IsConsistent (s : GoalsStorage) : Type 0 where
  pub own_id : IsKeyed (λ g. g.id) s.goals_by_id
  pub fresh : IsFresh s.next_id s.goals_by_id
  pub ids : IsDistinct s.goals_by_id

pub find_fresh : (next : ℕ) (m : List (ℤ × GoalRecord)) → IsFresh next m → find (pos next) m ≡ none
unfolding find
find_fresh next [] k = refl
find_fresh next ((j, t) ∷ m) ((n, f, l), k) =
    ground (arith, int_beq_iff j (pos next), find_fresh next m k)

IsFresh-mono : (a b : ℕ) (m : List (ℤ × GoalRecord)) → a < suc b → IsFresh a m → IsFresh b m
IsFresh-mono a b [] h k = tt
IsFresh-mono a b ((j, t) ∷ m) h ((n, f, l), k) = ((n, f, omega arith), IsFresh-mono a b m h k)

pub create_goal-IsConsistent :
    (title description : Bytes) (user_id : ℤ) (s : GoalsStorage)
    → IsConsistent s
    → IsConsistent (create_goal title description user_id s).1
unfolding create_goal
create_goal-IsConsistent title description user_id s v =
    let goal = (create_goal title description user_id s).0 in
    let no_id = find_fresh s.next_id s.goals_by_id v.fresh in
    rw (emplace_fresh (pos s.next_id) goal s.goals_by_id no_id) (record {
      own_id = All-append _ s.goals_by_id _ v.own_id (refl, tt);
      fresh =
          All-append _ s.goals_by_id _
            (IsFresh-mono s.next_id (s.next_id + 1) s.goals_by_id (omega arith) v.fresh)
            ((s.next_id, refl, omega arith), tt);
      ids = IsDistinct-append (pos s.next_id) goal s.goals_by_id no_id v.ids;
    })

-- A history of calls of `CreateGoal`: title, description and owner of each.
abbrev pub Creations : Type 0
Creations = List (Bytes × Bytes × ℤ)

unfoldable pub create_all : Creations → GoalsStorage → GoalsStorage
create_all [] s = s
create_all ((title, description, user_id) ∷ calls) s =
    create_all calls (create_goal title description user_id s).1

pub create_all-IsConsistent :
    (calls : Creations) (s : GoalsStorage) → IsConsistent s → IsConsistent (create_all calls s)
unfolding create_all
create_all-IsConsistent [] s v = v
create_all-IsConsistent ((t, d, u) ∷ calls) s v =
    create_all-IsConsistent calls _ (create_goal-IsConsistent t d u s v)

pub collect-filter :
    (user_id : ℤ) (m : List (ℤ × GoalRecord))
    → collect user_id m ≡ filter (λ g. g.user_id == user_id) (values m)
unfolding collect filter
collect-filter user_id [] = refl
collect-filter user_id ((k, g) ∷ m) = ground (arith, collect-filter user_id m)

-- After any history of creations `GetGoalsByUser` returns exactly the goals that are stored under their
-- id and belong to the user, whatever the order of iteration is.
pub get_goals_by_user-mem_iff :
    (it : Iteration ℤ GoalRecord) (calls : Creations) (user_id : ℤ) (g : GoalRecord)
    → Memᴰ g (get_goals_by_user it user_id (create_all calls new_storage))
      ↔ ((get_by_id g.id (create_all calls new_storage) ≡ some g) × (g.user_id ≡ user_id))
unfolding get_goals_by_user get_by_id
get_goals_by_user-mem_iff it calls user_id g =
    let s = create_all calls new_storage in
    let v =
      create_all-IsConsistent calls new_storage (record { own_id = tt; fresh = tt; ids = tt }) in
    let stored = mem-values_iff (λ (w : GoalRecord). w.id) g s.goals_by_id v.own_id v.ids in
    let met = it.order s.goals_by_id in
    let passed = filter-mem_iff (λ (w : GoalRecord). w.user_id == user_id) g (values met) in
    let perm = values-Permᴰ met s.goals_by_id (it.permuted s.goals_by_id) in
    let owner = int_beq_iff g.user_id user_id in
    (
      λ i.
          let (j, p) = passed.0 (rw (collect-filter user_id met) at i) in
          (stored.0 (mem-Permᴰ g _ _ perm j), owner.0 p),
      λ (e, o).
          rw (collect-filter user_id met)
            (passed.1 (mem-Permᴰ g _ _ (Permᴰ.symm perm) (stored.1 e), owner.1 o)),
    )

-- In a consistent storage `CreateGoal` uses an id that no goal has; then the lookup by that id gives
-- the new goal, and every other lookup what it gave before.
pub create_goal_lem :
    (title description : Bytes) (user_id : ℤ) (s : GoalsStorage)
    → IsConsistent s
    → (get_by_id (pos s.next_id) s ≡ none)
      × ((id : ℤ)
          → get_by_id id (create_goal title description user_id s).1 ≡ (
              if pos s.next_id == id
              then some (create_goal title description user_id s).0
              else get_by_id id s))
unfolding create_goal get_by_id
create_goal_lem title description user_id s v =
    let no_id = find_fresh s.next_id s.goals_by_id v.fresh in
    (no_id, λ id. find-emplace (pos s.next_id) id _ s.goals_by_id no_id)
