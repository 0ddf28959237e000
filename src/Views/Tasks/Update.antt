-- ===== src/Views/Tasks/Update.antt =====
-- The handler of src/views/tasks/update.cpp.
pub mod Laws
pub mod Swapped
use leadertask_userver.Base.{
  ℕ, Bool, true, false, Option, none, some, if◌then◌else◌, Bytes, Result, ok, err,
}
use leadertask_userver.Base.Int.{ℤ}
use leadertask_userver.Number.{parse_int}
use leadertask_userver.RateLimit.{UserId, RateLimits, Decision}
use leadertask_userver.RateLimit
use leadertask_userver.Definitions.{
  Exception, Goal, Task, CreateTaskResponseBody, UpdateTaskStatusRequest,
}
use leadertask_userver.Http.{
  HttpRequest, Outcome, fail, reply_with, bad_request_400, not_found_404, ok_200,
}
use leadertask_userver.Services.TasksTable.{TasksTable}
use leadertask_userver.Services.GoalsCollection.{GoalsCollection}
use leadertask_userver.Repositories
use leadertask_userver.Views.Limited.{Clock, State, Limiter, limited}
use leadertask_userver.Views.Tasks.Stores.{Stores}

-- `CheckRateLimit` of this file.
abbrev pub check_rate_limit : Limiter
check_rate_limit = RateLimit.check_rate_limit

-- The answer to what `UpdateStatus` gave.
abbrev pub respond : Result Exception (Option Task) → Outcome CreateTaskResponseBody
respond (err e) = err e
respond (ok none) = fail not_found_404 "task not found"
respond (ok (some task)) =
    reply_with ok_200
      (record { id = task.id; goal_id = task.goal_id; title = task.title; status = task.status })

module _ (table : TasksTable) (collection : GoalsCollection) where
  -- The body is parsed last; an exception of the parser is answered with 400. The repository's first parameter
  -- is the id of the task: the handler gives it the number of the goal, and the goal's place to the task.
  unfoldable pub write_status :
      ℤ
      → ℤ
      → Result Exception UpdateTaskStatusRequest
      → Stores table collection
      → Outcome CreateTaskResponseBody × Stores table collection
  write_status goal_id task_id (err e) s = (fail bad_request_400 "invalid request body", s)
  write_status goal_id task_id (ok body) s =
      let (updated, db) =
        Repositories.Tasks.update_status table goal_id task_id body.status s.tasks in
      (respond updated, record s { tasks = db })

  -- What `goals_storage_.GetById` gave: only its presence is tested.
  unfoldable pub in_goal :
      ℤ
      → ℤ
      → Result Exception UpdateTaskStatusRequest
      → Result Exception (Option Goal)
      → Stores table collection
      → Outcome CreateTaskResponseBody × Stores table collection
  unfolding write_status
  in_goal goal_id task_id body (err e) s = (err e, s)
  in_goal goal_id task_id body (ok none) s = (fail not_found_404 "goal not found", s)
  in_goal goal_id task_id body (ok (some goal)) s = write_status goal_id task_id body s

  -- The two path arguments: both must be whole numbers.
  abbrev pub both_numbers : Option ℤ → Option ℤ → Option (ℤ × ℤ)
  both_numbers none task_id = none
  both_numbers (some goal_id) none = none
  both_numbers (some goal_id) (some task_id) = some (goal_id, task_id)

  -- What follows the two calls of `ParseInt`.
  unfoldable pub with_numbers :
      Option (ℤ × ℤ)
      → HttpRequest
      → Result Exception UpdateTaskStatusRequest
      → Stores table collection
      → Outcome CreateTaskResponseBody × Stores table collection
  unfolding in_goal
  with_numbers none request body s = (fail bad_request_400 "invalid path parameters", s)
  with_numbers (some (goal_id, task_id)) request body s =
      in_goal goal_id task_id body
        (Repositories.Goals.get_by_id collection (request.get_path_arg "goalId") s.goals) s

  -- The handler behind the limit. The user plays no part in it.
  unfoldable pub update_in_goal :
      HttpRequest
      → Result Exception UpdateTaskStatusRequest
      → UserId
      → Stores table collection
      → Outcome CreateTaskResponseBody × Stores table collection
  unfolding with_numbers
  update_in_goal request body user_id s =
      with_numbers
        (both_numbers (parse_int (request.get_path_arg "goalId"))
          (parse_int (request.get_path_arg "taskId")))
        request body s

  -- `UpdateTaskStatus::HandleRequestJsonThrow`; `body` is the outcome of
  -- `As<UpdateTaskStatusRequest>()`.
  unfoldable pub handle :
      Clock
      → HttpRequest
      → Result Exception UpdateTaskStatusRequest
      → Option UserId
      → State (Stores table collection)
      → Outcome CreateTaskResponseBody × State (Stores table collection)
  unfolding update_in_goal
  handle clock request body context s =
      limited check_rate_limit "user_id not found  token" clock context
        (update_in_goal request body) s
