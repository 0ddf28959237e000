-- ===== src/Storage/Ids.antt =====
-- The ids that the three storages in memory give: `next_id_` of src/users_storage.hpp, src/tasks_storage.hpp and
-- src/goals_storage.hpp.
use leadertask_userver.Base.{
  ℕ, ◌+◌, ◌^◌, ◌<◌, ◌≡◌, refl, Option, none, some, List, Bytes, bytes_eq, arith, length, Bool-cases,
  inl, inr,
}
use leadertask_userver.Base.Int.{ℤ, pos, IsInt64}
use leadertask_userver.Base.Assoc.{Iteration, contains}
use leadertask_userver.Storage.Users
use leadertask_userver.Storage.Users.{UserRecord, UsersStorage, create_user}
use leadertask_userver.Storage.Users.Methods.{create_user_taken, create_user_new}
use leadertask_userver.Storage.Users.Spec
use leadertask_userver.Storage.Tasks
use leadertask_userver.Storage.Tasks.{TasksStorage, create_task, update_task_status}
use leadertask_userver.Storage.Tasks.Views.{
  found_cases, update_task_status_found, update_task_status_refused,
}
use leadertask_userver.Storage.Tasks.Spec as TasksSpec
use leadertask_userver.Storage.Goals
use leadertask_userver.Storage.Goals.{GoalRecord, GoalsStorage, create_goal}
use leadertask_userver.Storage.Goals.Spec as GoalsSpec
use leadertask_userver.Storage.Counter.{ids, last, counted, IsCounted, Advances, ids-IsCounted}

abbrev id_of_user : Spec.Reply → Option ℤ
id_of_user (Spec.signed_up id) = id
id_of_user _ = none

abbrev pub user_step :
    Iteration Bytes UserRecord → Spec.Command → UsersStorage → Option ℤ × UsersStorage
user_step it call s = let (reply, s') = Spec.perform it call s in (id_of_user reply, s')

abbrev id_of_task : TasksSpec.Reply → Option ℤ
id_of_task (TasksSpec.created task) = some task.id
id_of_task _ = none

abbrev pub task_step : TasksSpec.Command → TasksStorage → Option ℤ × TasksStorage
task_step call s = let (reply, s') = TasksSpec.perform call s in (id_of_task reply, s')

abbrev id_of_goal : GoalsSpec.Reply → Option ℤ
id_of_goal (GoalsSpec.created goal) = some goal.id
id_of_goal _ = none

abbrev pub goal_step :
    Iteration ℤ GoalRecord → GoalsSpec.Command → GoalsStorage → Option ℤ × GoalsStorage
goal_step it call s = let (reply, s') = GoalsSpec.perform it call s in (id_of_goal reply, s')

user_step-Advances :
    (it : Iteration Bytes UserRecord) (call : Spec.Command) (s : UsersStorage)
    → Advances s.next_id (user_step it call s).0 (user_step it call s).1.next_id
unfolding Spec.perform
user_step-Advances it (Spec.sign_up login password first_name last_name) s =
    elim (Bool-cases (contains login s.users_by_login)) [
      | inl taken ↦ rw (create_user_taken login password first_name last_name s taken) refl
      | inr new ↦ rw (create_user_new login password first_name last_name s new) (refl, refl)
    ]
user_step-Advances it (Spec.by_login login) s = refl
user_step-Advances it (Spec.by_id user_id) s = refl
user_step-Advances it (Spec.exists user_id) s = refl
user_step-Advances it (Spec.search_for login first_mask last_mask) s = refl

task_step-Advances :
    (call : TasksSpec.Command) (s : TasksStorage)
    → Advances s.next_id (task_step call s).0 (task_step call s).1.next_id
unfolding TasksSpec.perform create_task
task_step-Advances (TasksSpec.create g title) s = (refl, refl)
task_step-Advances (TasksSpec.get id) s = refl
task_step-Advances (TasksSpec.list g) s = refl
task_step-Advances (TasksSpec.update g id st) s = elim (found_cases g id st s) [
  | inl (t, e, own) ↦ rw (update_task_status_found g id st s t e own) refl
  | inr other ↦ rw (update_task_status_refused g id st s other) refl
]

goal_step-Advances :
    (it : Iteration ℤ GoalRecord) (call : GoalsSpec.Command) (s : GoalsStorage)
    → Advances s.next_id (goal_step it call s).0 (goal_step it call s).1.next_id
unfolding GoalsSpec.perform create_goal
goal_step-Advances it (GoalsSpec.create title description user_id) s = (refl, refl)
goal_step-Advances it (GoalsSpec.by_id id) s = refl
goal_step-Advances it (GoalsSpec.by_user user_id) s = refl

-- A counter from 1 after fewer than 2^63 - 1 calls is still an `int64_t`, and what it gave is 1, 2, 3, ...
abbrev pub IsNumbered : List ℤ → ℕ → Type 0
IsNumbered ids end = (ids ≡ counted 1 (length ids)) × IsInt64 (pos end)

IsCounted-IsNumbered :
    (ids : List ℤ) (end calls : ℕ)
    → calls + 1 < 2 ^ 63
    → IsCounted 1 ids end calls
    → IsNumbered ids end
IsCounted-IsNumbered ids end calls few (row, ended, fewer) = (row, omega (arith, few, ended, fewer))

-- In each of the three storages in memory, fewer than 2^63 - 1 calls of any kind give the ids 1, 2, 3, ... in this
-- order, none twice and none left out by a refused sign-up, and `next_id_` never leaves the range of `int64_t`.
pub ids-IsNumbered :
    (by_login : Iteration Bytes UserRecord) (by_id : Iteration ℤ GoalRecord)
    (us : List Spec.Command) (ts : List TasksSpec.Command) (gs : List GoalsSpec.Command)
    → length us + 1 < 2 ^ 63
    → length ts + 1 < 2 ^ 63
    → length gs + 1 < 2 ^ 63
    → IsNumbered
        (ids (user_step by_login) us Users.new_storage)
        (last (user_step by_login) us Users.new_storage).next_id
      × IsNumbered
          (ids task_step ts Tasks.new_storage)
          (last task_step ts Tasks.new_storage).next_id
      × IsNumbered
          (ids (goal_step by_id) gs Goals.new_storage)
          (last (goal_step by_id) gs Goals.new_storage).next_id
ids-IsNumbered by_login by_id us ts gs few_us few_ts few_gs = (
  IsCounted-IsNumbered _ _ (length us) few_us (
      ids-IsCounted (user_step by_login) (λ s. s.next_id) (user_step-Advances by_login) us
        Users.new_storage),
  IsCounted-IsNumbered _ _ (length ts) few_ts
      (ids-IsCounted task_step (λ s. s.next_id) task_step-Advances ts Tasks.new_storage),
  IsCounted-IsNumbered _ _ (length gs) few_gs (
      ids-IsCounted (goal_step by_id) (λ s. s.next_id) (goal_step-Advances by_id) gs
        Goals.new_storage),
)
