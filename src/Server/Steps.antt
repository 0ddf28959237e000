-- ===== src/Server/Steps.antt =====
-- What a request may do to the databases: an abstract specification of the server, as a relation between the
-- rows before and after, for a request and the user who acts.
use leadertask_userver.Base.{
  ◌≡◌, ◌≢◌, false, Option, some, List, [], ◌∷◌, ◌++◌, map, Memᴰ, Bytes, is_empty, Result, ok,
}
use leadertask_userver.Number.{stoll, value_of, parse_int}
use leadertask_userver.Definitions.{
  Exception, CreateUserRequestBody, CreateGoalRequestBody, CreateTaskRequestBody,
  UpdateTaskStatusRequest,
}
use leadertask_userver.Http.{HttpRequest}
use leadertask_userver.Views.Users.Laws.{is_incomplete}
use leadertask_userver.Views.Goals.Laws.{new_document}
use leadertask_userver.Base.Int.{ℤ}
use leadertask_userver.RateLimit.{UserId}
use leadertask_userver.Storage.Status.{todo}
use leadertask_userver.Services.TasksTable.{TaskRow, set_status}
use leadertask_userver.Services.UsersTable.{UserRow}
use leadertask_userver.Services.GoalsCollection.{Document}
use leadertask_userver.Repositories.Tasks.Methods.{IsStatus}
use leadertask_userver.Server.Defs.{
  Components, Data, Request, Call, signup, create_goal, create_task, update_task_status,
}
use leadertask_userver.Server.Dispatch.{acting}

-- The rows of the two tables, and the documents.
pub record Snapshot : Type 0 where
  pub users : List UserRow
  pub tasks : List TaskRow
  pub goals : List Document

-- What the databases show of themselves.
abbrev pub snapshot : (c : Components) → Data c → Snapshot
snapshot c d = record {
  users = c.users.primary d.users;
  tasks = c.tasks.primary d.tasks;
  goals = c.goals.documents d.goals;
}

module _ (c : Components) (context : Option UserId) (http : HttpRequest) (call : Call) where
  -- A user whom the request asks to add: the values are those of its body, which has them all.
  pub record IsNewUser (row : UserRow) : Type 0 where
    pub body : CreateUserRequestBody
    pub asked : call ≡ signup (ok body)
    pub complete : is_incomplete body ≡ false
    pub login : row.login ≡ body.login
    pub password : row.password ≡ body.password
    pub first_name : row.first_name ≡ body.first_name
    pub last_name : row.last_name ≡ body.last_name

  -- A goal that the request asks to add, for its own user.
  pub record IsNewGoal (doc : Document) : Type 0 where
    pub user_id : UserId
    pub known : context ≡ some user_id
    pub oid : Bytes
    pub body : CreateGoalRequestBody
    pub asked : call ≡ create_goal oid (ok body)
    pub titled : is_empty body.title ≡ false
    pub made : doc ≡ new_document oid body user_id

  -- The request asks for a task with this title under this number, its path names one of the goals, which is the
  -- user's own, and the number is that of the path.
  pub record MayAdd (goals : List Document) (goal_id : ℤ) (title : Bytes) : Type 0 where
    pub user_id : UserId
    pub known : context ≡ some user_id
    pub body : CreateTaskRequestBody
    pub asked : call ≡ create_task (ok body)
    pub titled : is_empty body.title ≡ false
    pub same_title : title ≡ body.title
    pub number : value_of (stoll (http.get_path_arg "goalId")) ≡ some goal_id
    pub doc : Document
    pub stored : Memᴰ doc goals
    pub named : c.goals.parse_oid (http.get_path_arg "goalId") ≡ ok doc.oid
    pub owned : doc.user_id ≡ user_id

  -- The request asks for a status and has some user, its path names one of the goals, whosever it is, and has these
  -- two numbers.
  pub record MaySet (goals : List Document) (goal_id task_id : ℤ)
      (body : Result Exception UpdateTaskStatusRequest) : Type 0 where
    pub user_id : UserId
    pub known : context ≡ some user_id
    pub asked : call ≡ update_task_status body
    pub goal_number : parse_int (http.get_path_arg "goalId") ≡ some goal_id
    pub task_number : parse_int (http.get_path_arg "taskId") ≡ some task_id
    pub doc : Document
    pub stored : Memᴰ doc goals
    pub named : c.goals.parse_oid (http.get_path_arg "goalId") ≡ ok doc.oid

  -- At most one row or document is added, or one status set, and only as the request asks for it. Ids, logins and
  -- object ids that are added are new. The status is set where the number of the goal is the id and the number of
  -- the task is the goal.
  pub data Step (v : Snapshot) : Snapshot → Type 0 where
    idle : Step v v
    user_added :
        (row : UserRow)
        → IsNewUser row
        → ((r : UserRow) → Memᴰ r v.users → (r.id ≢ row.id) × (r.login ≢ row.login))
        → Step v (record v { users = v.users ++ row ∷ [] })
    goal_added :
        (doc : Document)
        → IsNewGoal doc
        → ((e : Document) → Memᴰ e v.goals → e.oid ≢ doc.oid)
        → Step v (record v { goals = v.goals ++ doc ∷ [] })
    task_added :
        (row : TaskRow)
        → MayAdd v.goals row.goal_id row.title
        → row.status ≡ todo
        → ((r : TaskRow) → Memᴰ r v.tasks → r.id ≢ row.id)
        → Step v (record v { tasks = v.tasks ++ row ∷ [] })
    status_set :
        (goal_id task_id : ℤ) (body : UpdateTaskStatusRequest)
        → MaySet v.goals goal_id task_id (ok body)
        → IsStatus body.status
        → Step v (record v { tasks = map (set_status goal_id task_id body.status) v.tasks })

-- What a request may do for the user whom the checker finds in it.
abbrev pub RequestStep : Components → Request → Snapshot → Snapshot → Type 0
RequestStep c r v w = Step c (acting c r) r.http r.call v w

-- What requests lead to, one step for each, in the order in which they take effect.
pub data Reach (c : Components) : List Request → Snapshot → Snapshot → Type 0 where
  start : {v : Snapshot} → Reach c [] v v
  next :
      {r : Request} {rs : List Request} {v w x : Snapshot}
      → RequestStep c r v w
      → Reach c rs w x
      → Reach c (r ∷ rs) v x
