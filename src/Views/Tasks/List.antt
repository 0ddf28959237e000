-- ===== src/Views/Tasks/List.antt =====
-- The handler of src/views/tasks/list.cpp.
pub mod Laws
use leadertask_userver.Base.{
  ℕ, Bool, true, false, Option, none, some, List, [], ◌∷◌, if◌then◌else◌, Bytes, Result, ok, err,
}
use leadertask_userver.Base.Int.{ℤ}
use leadertask_userver.Number.{stoll, value_of}
use leadertask_userver.RateLimit.{UserId, RateLimits, Decision}
use leadertask_userver.RateLimit
use leadertask_userver.Definitions.{Exception, Goal, Task}
use leadertask_userver.Http.{HttpRequest, Outcome, fail, reply, bad_request_400, not_found_404}
use leadertask_userver.Services.TasksTable.{TasksTable}
use leadertask_userver.Services.GoalsCollection.{GoalsCollection}
use leadertask_userver.Repositories
use leadertask_userver.Views.Limited.{Clock, State, Limiter, limited}
use leadertask_userver.Views.Tasks.Stores.{Stores, is_owner}

-- `CheckRateLimit` of this file.
abbrev pub check_rate_limit : Limiter
check_rate_limit = RateLimit.check_rate_limit

-- The loop that copies the tasks.
unfoldable pub copy_tasks : List Task → List Task
copy_tasks [] = []
copy_tasks (task ∷ tasks) =
    record { id = task.id; goal_id = task.goal_id; title = task.title; status = task.status }
    ∷ copy_tasks tasks

abbrev pub respond_or_throw : Result Exception (List Task) → Outcome (List Task)
respond_or_throw (ok tasks) = reply (copy_tasks tasks)
respond_or_throw (err e) = err e

module _ (table : TasksTable) (collection : GoalsCollection) where
  -- What `goals_storage_.GetById` gave, and the tests on it.
  unfoldable pub in_goal :
      UserId → ℤ → Result Exception (Option Goal) → Stores table collection → Outcome (List Task)
  in_goal user_id goal_id (err e) s = err e
  in_goal user_id goal_id (ok none) s = fail not_found_404 "goal not found in your account"
  in_goal user_id goal_id (ok (some goal)) s =
      if is_owner user_id goal.user_id
      then respond_or_throw (Repositories.Tasks.get_by_goal table goal_id s.tasks)
      else fail not_found_404 "goal not found"

  -- What `std::stoll` gave, and what follows.
  unfoldable pub with_number :
      Option ℤ → HttpRequest → UserId → Stores table collection → Outcome (List Task)
  unfolding in_goal
  with_number none request user_id s = fail bad_request_400 "invalid goalId"
  with_number (some goal_id) request user_id s =
      in_goal user_id goal_id
        (Repositories.Goals.get_by_id collection (request.get_path_arg "goalId") s.goals) s

  -- The handler behind the limit; it changes no store.
  unfoldable pub list_goal :
      HttpRequest → UserId → Stores table collection → Outcome (List Task) × Stores table collection
  unfolding with_number
  list_goal request user_id s =
      (with_number (value_of (stoll (request.get_path_arg "goalId"))) request user_id s, s)

  -- `ListTasks::HandleRequestJsonThrow`.
  unfoldable pub handle :
      Clock
      → HttpRequest
      → Option UserId
      → State (Stores table collection)
      → Outcome (List Task) × State (Stores table collection)
  unfolding list_goal
  handle clock request context s =
      limited check_rate_limit "user_id not found in token" clock context (list_goal request) s
