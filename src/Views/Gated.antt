-- ===== src/Views/Gated.antt =====
-- The six handlers of src/views that call `CheckRateLimit`: each answers with an error before it, or goes
-- through it.
use leadertask_userver.Base.{
  refl, Option, inl, inr, Bool-cases, Bytes, is_empty, Result, ok, err, List,
}
use leadertask_userver.RateLimit.{UserId}
use leadertask_userver.Definitions.{
  Exception, CreateTaskRequestBody, CreateTaskResponseBody, UpdateTaskStatusRequest, Task, Goal,
  User, CreateGoalRequestBody, CreateGoalResponseBody,
}
use leadertask_userver.Http.{HttpRequest}
use leadertask_userver.Services.TasksTable.{TasksTable}
use leadertask_userver.Services.UsersTable.{UsersTable}
use leadertask_userver.Services.GoalsCollection.{GoalsCollection}
use leadertask_userver.Views.Limited.{Clock, State}
use leadertask_userver.Views.Limited.Rate.{IsGated, before, behind, Visit}
use leadertask_userver.Views.Tasks
use leadertask_userver.Views.Tasks.Stores.{Stores}
use leadertask_userver.Views.Goals
use leadertask_userver.Views.Users

module _ (table : TasksTable) (collection : GoalsCollection) (clock : Clock)
    (context : Option UserId) where
  pub create_task-IsGated :
      (request : HttpRequest) (body : Result Exception CreateTaskRequestBody)
      (s : State (Stores table collection))
      → IsGated clock context s (Tasks.Create.handle table collection clock request body context s)
  unfolding Tasks.Create.handle
  create_task-IsGated request (err e) s = before (err e) refl
  create_task-IsGated request (ok body) s = elim (Bool-cases (is_empty body.title)) [
    | inl blank ↦ rw blank (before _ refl)
    | inr titled ↦ rw titled (behind _ _ _ refl)
  ]

  abbrev pub create_task :
      HttpRequest
      → Result Exception CreateTaskRequestBody
      → Visit CreateTaskResponseBody (Stores table collection)
  create_task request body = record {
    clock = clock;
    context = context;
    handler = Tasks.Create.handle table collection clock request body context;
    gated = create_task-IsGated request body;
  }

  pub list_tasks-IsGated :
      (request : HttpRequest) (s : State (Stores table collection))
      → IsGated clock context s (Tasks.List.handle table collection clock request context s)
  unfolding Tasks.List.handle
  list_tasks-IsGated request s = behind _ _ _ refl

  abbrev pub list_tasks : HttpRequest → Visit (List Task) (Stores table collection)
  list_tasks request = record {
    clock = clock;
    context = context;
    handler = Tasks.List.handle table collection clock request context;
    gated = list_tasks-IsGated request;
  }

  pub update_task-IsGated :
      (request : HttpRequest) (body : Result Exception UpdateTaskStatusRequest)
      (s : State (Stores table collection))
      → IsGated clock context s (Tasks.Update.handle table collection clock request body context s)
  unfolding Tasks.Update.handle
  update_task-IsGated request body s = behind _ _ _ refl

  abbrev pub update_task :
      HttpRequest
      → Result Exception UpdateTaskStatusRequest
      → Visit CreateTaskResponseBody (Stores table collection)
  update_task request body = record {
    clock = clock;
    context = context;
    handler = Tasks.Update.handle table collection clock request body context;
    gated = update_task-IsGated request body;
  }

module _ (collection : GoalsCollection) (clock : Clock) (context : Option UserId) where
  pub create_goal-IsGated :
      (oid : Bytes) (body : Result Exception CreateGoalRequestBody) (s : State collection.Coll)
      → IsGated clock context s (Goals.Create.handle collection clock oid body context s)
  unfolding Goals.Create.handle
  create_goal-IsGated oid (err e) s = before (err e) refl
  create_goal-IsGated oid (ok body) s = elim (Bool-cases (is_empty body.title)) [
    | inl blank ↦ rw blank (before _ refl)
    | inr titled ↦ rw titled (behind _ _ _ refl)
  ]

  abbrev pub create_goal :
      Bytes → Result Exception CreateGoalRequestBody → Visit CreateGoalResponseBody collection.Coll
  create_goal oid body = record {
    clock = clock;
    context = context;
    handler = Goals.Create.handle collection clock oid body context;
    gated = create_goal-IsGated oid body;
  }

  pub list_goals-IsGated :
      (s : State collection.Coll)
      → IsGated clock context s (Goals.List.handle collection clock context s)
  unfolding Goals.List.handle
  list_goals-IsGated s = behind _ _ _ refl

  abbrev pub list_goals : Visit (List Goal) collection.Coll
  list_goals = record {
    clock = clock;
    context = context;
    handler = Goals.List.handle collection clock context;
    gated = list_goals-IsGated;
  }

module _ (table : UsersTable) (clock : Clock) (context : Option UserId) where
  pub search_users-IsGated :
      (request : HttpRequest) (s : State table.Db)
      → IsGated clock context s (Users.Search.handle table clock request context s)
  unfolding Users.Search.handle
  search_users-IsGated request s = behind _ _ _ refl

  abbrev pub search_users : HttpRequest → Visit (List User) table.Db
  search_users request = record {
    clock = clock;
    context = context;
    handler = Users.Search.handle table clock request context;
    gated = search_users-IsGated request;
  }
