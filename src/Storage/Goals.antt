-- ===== src/Storage/Goals.antt =====
-- `GoalsStorage` of src/goals_storage.hpp.
pub mod Methods
pub mod Spec
use leadertask_userver.Base.{ℕ, ◌+◌, Bool, Option, List, [], ◌∷◌, if◌then◌else◌, Bytes, ◌==◌}
use leadertask_userver.Base.Int.{ℤ, pos, int_eq}
use leadertask_userver.Base.Assoc.{find, emplace, Iteration}

pub record GoalRecord : Type 0 where
  pub id : ℤ
  pub title : Bytes
  pub description : Bytes
  pub user_id : ℤ

-- `next_id_` counts up from 1 and is used as an `int64_t` key; it is a natural number here.
pub record GoalsStorage : Type 0 where
  pub next_id : ℕ
  pub goals_by_id : List (ℤ × GoalRecord)

abbrev pub new_storage : GoalsStorage
new_storage = record { next_id = 1; goals_by_id = [] }

-- `CreateGoal`.
unfoldable pub create_goal : Bytes → Bytes → ℤ → GoalsStorage → GoalRecord × GoalsStorage
create_goal title description user_id s =
    let id = pos s.next_id in
    let goal : GoalRecord = record {
      id = id;
      title = title;
      description = description;
      user_id = user_id;
    } in
    (goal, record { next_id = s.next_id + 1; goals_by_id = emplace id goal s.goals_by_id })

-- `GetById`.
unfoldable pub get_by_id : ℤ → GoalsStorage → Option GoalRecord
get_by_id id s = find id s.goals_by_id

unfoldable pub collect : ℤ → List (ℤ × GoalRecord) → List GoalRecord
collect user_id [] = []
collect user_id ((id, goal) ∷ m) =
    let rest = collect user_id m in if goal.user_id == user_id then goal ∷ rest else rest

-- `GetGoalsByUser`, in an order of iteration of `goals_by_id_`.
unfoldable pub get_goals_by_user : Iteration ℤ GoalRecord → ℤ → GoalsStorage → List GoalRecord
unfolding collect
get_goals_by_user it user_id s = collect user_id (it.order s.goals_by_id)
