-- ===== src/Tests/AnswerRuns.antt =====
-- Requests to the handlers of src/views/tasks that are answered with a value.
use leadertask_userver.Base.{◌≡◌, ◌↔◌, false, is_empty, some, List, [], ◌∷◌, map, codes, ok}
use leadertask_userver.Base.Int.{ℤ, pos, int_eq}
use leadertask_userver.Definitions.{CreateTaskResponseBody, UpdateTaskStatusRequest}
use leadertask_userver.Http.{reply, reply_with, created_201, ok_200}
use leadertask_userver.Storage.Status.{todo, done}
use leadertask_userver.Services.TasksTable.{TaskRow}
use leadertask_userver.Repositories.Tasks.{as_task}
use leadertask_userver.Views.Tasks
use leadertask_userver.Views.Tasks.Answers.{
  IsWithinLimit, OwnsGoal, NamesTask, UpdatesTo, handle_create_iff, handle_list_iff,
  handle_update_iff,
}
use leadertask_userver.Tests.Tasks.{memory_tasks, insert, select_by_goal}
use leadertask_userver.Tests.Goals.{memory_goals}
use leadertask_userver.Tests.World.{owner, oid_1, start, clock, request_of, new_task}

abbrev old_row : TaskRow
old_row = record { id = pos 1; goal_id = pos 1; title = codes "write"; status = todo }

abbrev to_done : UpdateTaskStatusRequest
to_done = record { status = done }

handle_create_iff_example :
    ((resp : CreateTaskResponseBody) × ((Tasks.Create.handle memory_tasks memory_goals clock
          (request_of oid_1 [])
          (ok new_task)
          (some owner)
          start).0
        ≡ reply_with created_201 resp))
    ↔ ((is_empty new_task.title ≡ false)
        × IsWithinLimit memory_tasks memory_goals clock (request_of oid_1 []) owner start
        × (goal_id : ℤ) × OwnsGoal memory_tasks memory_goals clock
            (request_of oid_1 [])
            owner
            start
            goal_id
        × (rows : List TaskRow) × ((insert goal_id new_task.title start.store.tasks).0 ≡ ok rows))
handle_create_iff_example =
    handle_create_iff memory_tasks memory_goals clock (request_of oid_1 []) owner start new_task

handle_list_iff_example :
    ((Tasks.List.handle memory_tasks memory_goals clock (request_of oid_1 []) (some owner) start).0
      ≡ reply (map as_task (old_row ∷ [])))
    ↔ (IsWithinLimit memory_tasks memory_goals clock (request_of oid_1 []) owner start
        × (goal_id : ℤ) × OwnsGoal memory_tasks memory_goals clock
            (request_of oid_1 [])
            owner
            start
            goal_id
        × (rows : List TaskRow) × (select_by_goal goal_id start.store.tasks ≡ ok rows)
        × (map as_task (old_row ∷ []) ≡ map as_task rows))
handle_list_iff_example =
    handle_list_iff memory_tasks memory_goals clock (request_of oid_1 []) owner start
      (map as_task (old_row ∷ []))

-- The user is not the owner of the goal.
handle_update_iff_example :
    ((resp : CreateTaskResponseBody) × ((Tasks.Update.handle memory_tasks memory_goals clock
          (request_of oid_1 (codes "1"))
          (ok to_done)
          (some (pos 6))
          start).0
        ≡ reply_with ok_200 resp))
    ↔ (IsWithinLimit memory_tasks memory_goals clock (request_of oid_1 (codes "1")) (pos 6) start
        × (p : NamesTask memory_tasks memory_goals clock
            (request_of oid_1 (codes "1"))
            (pos 6)
            start)
        × (row : TaskRow) × UpdatesTo memory_tasks memory_goals clock
            (request_of oid_1 (codes "1"))
            (pos 6)
            start
            p
            (ok to_done)
            row)
handle_update_iff_example =
    handle_update_iff memory_tasks memory_goals clock (request_of oid_1 (codes "1")) (pos 6) start
      (ok to_done)
