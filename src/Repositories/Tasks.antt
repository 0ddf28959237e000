-- ===== src/Repositories/Tasks.antt =====
-- `TasksRepository` of src/repositories/tasks_repository.cpp.
pub mod Methods
use leadertask_userver.Base.{
  Bool, true, false, not, ◌&&◌, Option, none, some, List, map, if◌then◌else◌, Bytes, Result, ok,
  err, map_ok, and_then, bytes_beq,
}
use leadertask_userver.Base.Int.{ℤ}
use leadertask_userver.Definitions.{Exception, Task, CreateTaskResponseBody}
use leadertask_userver.Storage.Status.{todo, in_progress, done}
use leadertask_userver.Services.TasksTable.{TasksTable, TaskRow}
use leadertask_userver.Repositories.{optional_row, single_row}

-- A row as the struct `Task`, column by column.
abbrev pub as_task : TaskRow → Task
as_task r = record { id = r.id; goal_id = r.goal_id; title = r.title; status = r.status }

-- A row as the struct `CreateTaskResponseBody`.
abbrev pub as_created : TaskRow → CreateTaskResponseBody
as_created r = record { id = r.id; goal_id = r.goal_id; title = r.title; status = r.status }

module _ (table : TasksTable) where
  -- `CreateTask`.
  unfoldable pub create_task :
      ℤ → Bytes → table.Db → Result Exception CreateTaskResponseBody × table.Db
  create_task goal_id title db =
      let (res, db') = table.insert goal_id title db in
      (map_ok as_created (and_then res single_row), db')

  -- `GetById`.
  unfoldable pub get_by_id : ℤ → table.Db → Result Exception (Option Task)
  get_by_id id db = and_then (table.select_by_id id db) (λ rows. optional_row (map as_task rows))

  -- `GetByGoal`.
  unfoldable pub get_by_goal : ℤ → table.Db → Result Exception (List Task)
  get_by_goal goal_id db = map_ok (map as_task) (table.select_by_goal goal_id db)

  -- `UpdateStatus`: a text that is no status is answered before the database is asked.
  unfoldable pub update_status :
      ℤ → ℤ → Bytes → table.Db → Result Exception (Option Task) × table.Db
  update_status task_id goal_id new_status db =
      if not (bytes_beq new_status todo)
        && (not (bytes_beq new_status in_progress) && not (bytes_beq new_status done))
      then (ok none, db)
      else let (ress, db') = table.update task_id goal_id new_status db in
        (and_then ress (λ rows. optional_row (map as_task rows)), db')
