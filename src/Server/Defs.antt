-- ===== src/Server/Defs.antt =====
-- The server as src/main.cpp puts it together: the handlers, each with the repositories that its constructor
-- finds, behind the token checker where configs/static_config.yaml names the type `jwt-auth`. A request is
-- given with the handler that the framework has chosen for its method and its path.
use leadertask_userver.Base.{◌≡◌, ◌↔◌, ℕ, Bool, true, false, List, Bytes, Result}
use leadertask_userver.RateLimit.{RateLimits}
use leadertask_userver.Definitions.{
  Exception, Goal, CreateGoalRequestBody, CreateGoalResponseBody, Task, CreateTaskRequestBody,
  CreateTaskResponseBody, UpdateTaskStatusRequest, User, CreateUserRequestBody,
  CreateUserResponseBody, LoginRequestBody, LoginResponseBody, HelloRequestBody, HelloResponseBody,
}
use leadertask_userver.Http.{HttpRequest, Outcome}
use leadertask_userver.Services.TasksTable.{TasksTable}
use leadertask_userver.Services.UsersTable.{UsersTable}
use leadertask_userver.Services.GoalsCollection.{GoalsCollection}
use leadertask_userver.Services.Tokens.{Tokens}
use leadertask_userver.Auth.{accepted, AuthCheckResult}
use leadertask_userver.Views.Limited.{Clock}
use leadertask_userver.Views.Tasks.Stores.{Stores}

-- What the components are built on: the tables that the repositories reach, the collection, the tokens, the
-- settings `secret` of the login handler and of the checker, and the framework that calls the checker.
pub record Components : Type 1 where
  pub users : UsersTable
  pub tasks : TasksTable
  pub goals : GoalsCollection
  pub tokens : Tokens
  pub login_secret : Bytes
  pub checker_secret : Bytes
  -- whether the framework goes on to the handler after the checker's answer
  pub continues : AuthCheckResult → Bool
  -- it does exactly after an answer with the status `kOk`
  pub continues_iff :
      (result : AuthCheckResult) → (continues result ≡ true) ↔ (result.status ≡ accepted)

-- The handlers that are registered, with what each is given besides the request: the outcome of parsing
-- the body, the time, or the new object id.
pub data Call : Type 0 where
  hello : (now : ℕ) (body : Result Exception HelloRequestBody) → Call
  login : (body : Result Exception LoginRequestBody) → Call
  signup : (body : Result Exception CreateUserRequestBody) → Call
  search : Call
  create_goal : (oid : Bytes) (body : Result Exception CreateGoalRequestBody) → Call
  list_goals : Call
  create_task : (body : Result Exception CreateTaskRequestBody) → Call
  update_task_status : (body : Result Exception UpdateTaskStatusRequest) → Call
  list_tasks : Call

-- A request with the clock readings that its handler makes.
pub record Request : Type 0 where
  pub clock : Clock
  pub http : HttpRequest
  pub call : Call

-- The answer: that of the checker, or the outcome of the handler.
pub data Response : Type 0 where
  rejected : AuthCheckResult → Response
  greeting : Outcome HelloResponseBody → Response
  token : Outcome LoginResponseBody → Response
  new_user : Outcome CreateUserResponseBody → Response
  found_users : Outcome (List User) → Response
  new_goal : Outcome CreateGoalResponseBody → Response
  goal_list : Outcome (List Goal) → Response
  new_task : Outcome CreateTaskResponseBody → Response
  updated_task : Outcome CreateTaskResponseBody → Response
  task_list : Outcome (List Task) → Response

-- `auth: types: - jwt-auth` stands at every handler but the sign-up and the login.
unfoldable pub needs_auth : Call → Bool
needs_auth (login body) = false
needs_auth (signup body) = false
needs_auth _ = true

-- The `rate_limits` of the six files that have one.
pub record Limits : Type 0 where
  pub search : RateLimits
  pub create_goal : RateLimits
  pub list_goals : RateLimits
  pub create_task : RateLimits
  pub update_task_status : RateLimits
  pub list_tasks : RateLimits

module _ (c : Components) where
  -- What the databases hold.
  pub record Data : Type 0 where
    pub users : c.users.Db
    pub tasks : c.tasks.Db
    pub goals : c.goals.Coll

  pub record Server : Type 0 where
    pub limits : Limits
    pub stored : Data

  -- The stores of the task handlers, and what holds after they have worked on them.
  abbrev pub task_stores : Data → Stores c.tasks c.goals
  task_stores d = record { tasks = d.tasks; goals = d.goals }

  abbrev pub with_task_stores : Data → Stores c.tasks c.goals → Data
  with_task_stores d s = record d { tasks = s.tasks; goals = s.goals }
