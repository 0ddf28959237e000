-- ===== src/Storage/Tasks.antt =====
-- `TasksStorage` of src/tasks_storage.hpp.
pub mod Views
pub mod Methods
pub mod Spec
use leadertask_userver.Base.{
  ℕ, zero, suc, ◌+◌, Bool, true, false, Option, none, some, List, [], ◌∷◌, ◌++◌, map, if◌then◌else◌,
  Bytes, ◌==◌, filter,
}
use leadertask_userver.Base.Int.{ℤ, pos, int_eq}
use leadertask_userver.Base.Assoc.{find, assign, emplace, modify}
use leadertask_userver.Storage.Status.{TaskStatus, task_status_todo, task_status_to_string}

pub record TaskRecord : Type 0 where
  pub id : ℤ
  pub goal_id : ℤ
  pub title : Bytes
  pub status : Bytes

-- `next_id_` counts up from 1 and is used as an `int64_t` key; it is a natural number here.
pub record TasksStorage : Type 0 where
  pub next_id : ℕ
  pub tasks_by_id : List (ℤ × TaskRecord)
  pub tasks_by_goal : List (ℤ × List TaskRecord)

abbrev pub new_storage : TasksStorage
new_storage = record { next_id = 1; tasks_by_id = []; tasks_by_goal = [] }

abbrev pub or_empty : Option (List TaskRecord) → List TaskRecord
or_empty none = []
or_empty (some ts) = ts

-- `CreateTask`.
unfoldable pub create_task : ℤ → Bytes → TasksStorage → TaskRecord × TasksStorage
create_task goal_id title s =
    let id = pos s.next_id in
    let task : TaskRecord = record {
      id = id;
      goal_id = goal_id;
      title = title;
      status = task_status_to_string task_status_todo;
    } in
    (
      task,
      record {
        next_id = s.next_id + 1;
        tasks_by_id = emplace id task s.tasks_by_id;
        tasks_by_goal =
            assign goal_id (or_empty (find goal_id s.tasks_by_goal) ++ task ∷ []) s.tasks_by_goal;
      },
    )

-- `GetById`.
unfoldable pub get_by_id : ℤ → TasksStorage → Option TaskRecord
get_by_id id s = find id s.tasks_by_id

-- `GetByGoal`.
unfoldable pub get_by_goal : ℤ → TasksStorage → List TaskRecord
get_by_goal goal_id s = or_empty (find goal_id s.tasks_by_goal)

abbrev pub with_status : TaskStatus → TaskRecord → TaskRecord
with_status st task = record task { status = task_status_to_string st }

-- The loop over the tasks of a goal: the first with the id is written, and the loop ends.
unfoldable pub write_first : ℤ → TaskStatus → List TaskRecord → List TaskRecord
write_first task_id st [] = []
write_first task_id st (task ∷ tasks) =
    let rest = write_first task_id st tasks in
    if task.id == task_id then with_status st task ∷ tasks else task ∷ rest

-- `UpdateTaskStatus`.
unfoldable pub update_task_status :
    ℤ → ℤ → TaskStatus → TasksStorage → Option TaskRecord × TasksStorage
unfolding write_first
update_task_status goal_id task_id new_st s = elim (find task_id s.tasks_by_id) [
  | none ↦ (none, s)
  | some task ↦
      if task.goal_id == goal_id
      then (
        some (with_status new_st task),
        record s {
          tasks_by_id = modify task_id (with_status new_st) s.tasks_by_id;
          tasks_by_goal = modify goal_id (write_first task_id new_st) s.tasks_by_goal;
        },
      )
      else (none, s)
]
