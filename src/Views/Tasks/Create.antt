-- ===== src/Views/Tasks/Create.antt =====
-- The handler of src/views/tasks/create.cpp.
pub mod Laws
pub mod Unchanged
use leadertask_userver.Base.{
  ℕ, Bool, true, false, Option, none, some, if◌then◌else◌, Bytes, is_empty, Result, ok, err, map_ok,
}
use leadertask_userver.Base.Int.{ℤ}
use leadertask_userver.Number.{stoll, value_of}
use leadertask_userver.RateLimit.{UserId, RateLimits, Decision}
use leadertask_userver.RateLimit
use leadertask_userver.Definitions.{Exception, Goal, CreateTaskRequestBody, CreateTaskResponseBody}
use leadertask_userver.Http.{
  HttpRequest, Outcome, fail, reply_with, bad_request_400, not_found_404, created_201,
}
use leadertask_userver.Services.TasksTable.{TasksTable}
use leadertask_userver.Services.GoalsCollection.{GoalsCollection}
use leadertask_userver.Repositories
use leadertask_userver.Views.Limited.{Clock, State, Limiter, limited}
use leadertask_userver.Views.Tasks.Stores.{Stores, is_owner}

-- `CheckRateLimit` of this file.
abbrev pub check_rate_limit : Limiter
check_rate_limit = RateLimit.check_rate_limit

module _ (table : TasksTable) (collection : GoalsCollection) where
  -- The response body, field by field, with status 201.
  abbrev pub respond : CreateTaskResponseBody → Outcome CreateTaskResponseBody
  respond task =
      reply_with created_201
        (record { id = task.id; goal_id = task.goal_id; title = task.title; status = task.status })

  abbrev pub respond_or_throw :
      Result Exception CreateTaskResponseBody → Outcome CreateTaskResponseBody
  respond_or_throw (ok task) = respond task
  respond_or_throw (err e) = err e

  -- `tasks_.CreateTask(goal_id, body.title)` and what follows.
  unfoldable pub insert_task :
      ℤ → Bytes → Stores table collection → Outcome CreateTaskResponseBody × Stores table collection
  insert_task goal_id title s =
      let (task, db) = Repositories.Tasks.create_task table goal_id title s.tasks in
      (respond_or_throw task, record s { tasks = db })

  -- What `goals_.GetById` gave, and the tests on it.
  unfoldable pub in_goal :
      UserId
      → ℤ
      → Bytes
      → Result Exception (Option Goal)
      → Stores table collection
      → Outcome CreateTaskResponseBody × Stores table collection
  unfolding insert_task
  in_goal user_id goal_id title (err e) s = (err e, s)
  in_goal user_id goal_id title (ok none) s =
      (fail not_found_404 "goal not found in your account", s)
  in_goal user_id goal_id title (ok (some goal)) s =
      if is_owner user_id goal.user_id
      then insert_task goal_id title s
      else (fail not_found_404 "goal not found", s)

  -- What `std::stoll` gave, and what follows.
  unfoldable pub with_number :
      Option ℤ
      → HttpRequest
      → CreateTaskRequestBody
      → UserId
      → Stores table collection
      → Outcome CreateTaskResponseBody × Stores table collection
  unfolding in_goal
  with_number none request body user_id s = (fail bad_request_400 "invalid goalId", s)
  with_number (some goal_id) request body user_id s =
      in_goal user_id goal_id body.title
        (Repositories.Goals.get_by_id collection (request.get_path_arg "goalId") s.goals) s

  -- The handler behind the limit.
  unfoldable pub create_in_goal :
      HttpRequest
      → CreateTaskRequestBody
      → UserId
      → Stores table collection
      → Outcome CreateTaskResponseBody × Stores table collection
  unfolding with_number
  create_in_goal request body user_id s =
      with_number (value_of (stoll (request.get_path_arg "goalId"))) request body user_id s

  -- `Create::HandleRequestJsonThrow`; `body` is the outcome of `As<CreateTaskRequestBody>()`.
  unfoldable pub handle :
      Clock
      → HttpRequest
      → Result Exception CreateTaskRequestBody
      → Option UserId
      → State (Stores table collection)
      → Outcome CreateTaskResponseBody × State (Stores table collection)
  unfolding create_in_goal
  handle clock request (err e) context s = (err e, s)
  handle clock request (ok body) context s =
      if is_empty body.title
      then (fail bad_request_400 "title is required", s)
      else limited check_rate_limit "user_id not found in token" clock context
          (create_in_goal request body) s
