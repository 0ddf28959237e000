-- ===== src/Server/Refines.antt =====
-- Every request takes a step of the specification.
use leadertask_userver.Base.{
  ◌≡◌, refl, sym, ◌∙◌, ap, subst, false, Option, none, some, Bool-cases, Result-cases, inl, inr,
  Bytes, is_empty, Result, ok, err,
}
use leadertask_userver.Base.Int.{ℤ, int_eq, int_beq_iff}
use leadertask_userver.RateLimit.{UserId, RateLimits}
use leadertask_userver.Number.{stoll, value_of, parse_int}
use leadertask_userver.Definitions.{
  Exception, Goal, CreateGoalRequestBody, CreateTaskRequestBody, UpdateTaskStatusRequest,
  CreateUserRequestBody,
}
use leadertask_userver.Http.{HttpRequest}
use leadertask_userver.Services.UsersTable.{unique_violation, failure}
use leadertask_userver.Services.UsersTable
use leadertask_userver.Services.TasksTable.{TaskRow, IsInserted}
use leadertask_userver.Services.GoalsCollection.{Document}
use leadertask_userver.Repositories.Users.{create_user}
use leadertask_userver.Repositories.Goals.{get_by_id}
use leadertask_userver.Repositories
use leadertask_userver.Repositories.Goals.Methods.{get_by_id-stored}
use leadertask_userver.Repositories.Tasks.{update_status}
use leadertask_userver.Repositories.Tasks.Methods.{is_no_status, IsStatus-cases}
use leadertask_userver.Views.Limited.{Clock}
use leadertask_userver.Views.Limited.Cases.{limited_takes}
use leadertask_userver.Views.Tasks
use leadertask_userver.Views.Tasks.Stores.{Stores, is_owner}
use leadertask_userver.Views.Goals
use leadertask_userver.Views.Goals.Laws.{new_document}
use leadertask_userver.Views.Users
use leadertask_userver.Views.Users.Laws.{is_incomplete}
use leadertask_userver.Server.Defs.{
  Components, Data, Call, signup, create_goal, create_task, update_task_status, task_stores,
  with_task_stores,
}
use leadertask_userver.Server.Steps.{
  snapshot, IsNewGoal, MayAdd, MaySet, Step, idle, user_added, goal_added, task_added, status_set,
}

module _ (c : Components) (d : Data c) (context : Option UserId) (http : HttpRequest) where
  -- The data after a call are a step from those before.
  abbrev pub Takes : Call → Data c → Type 0
  Takes call d' = Step c context http call (snapshot c d) (snapshot c d')

  signed_up :
      (body : CreateUserRequestBody) (db' : c.users.Db) (id : ℤ)
      → is_incomplete body ≡ false
      → UsersTable.IsInserted body.login body.password body.first_name body.last_name
          (c.users.primary d.users)
          (c.users.primary db')
          id
      → Takes (signup (ok body)) (record d { users = db' })
  signed_up body db' id complete (fresh, rows) = rw rows (
      user_added _
        (record {
          body = body;
          asked = refl;
          complete = complete;
          login = refl;
          password = refl;
          first_name = refl;
          last_name = refl;
        })
        fresh)

  pub signup-Step :
      (body : Result Exception CreateUserRequestBody)
      → Takes (signup body) (record d { users = (Users.Signup.handle c.users body d.users).1 })
  unfolding Users.Signup.handle create_user
  signup-Step (err e) = idle
  signup-Step (ok body) = elim (Bool-cases (is_incomplete body)) [
    | inl bad ↦ rw bad idle
    | inr good ↦
        elim (Result-cases
          (c.users.insert body.login body.password body.first_name body.last_name d.users).0) [
            | inl (id, e) ↦ rw good (
                signed_up body _ id good (
                  c.users.insert_ok body.login body.password body.first_name body.last_name d.users
                    id e))
            | inr (unique_violation, e) ↦
                let (_, same) =
                  c.users.insert_taken body.login body.password body.first_name body.last_name
                    d.users e in
                rw (good, same) idle
            | inr (failure x, e) ↦
                elim (c.users.insert_failed body.login body.password body.first_name body.last_name
                  d.users x e) [
                    | inl same ↦ rw (good, same) idle
                    | inr (id, new) ↦ rw good (signed_up body _ id good new)
                  ]
          ]
  ]

  goal_inserted :
      (body : CreateGoalRequestBody) (oid : Bytes) (user_id : UserId)
      → is_empty body.title ≡ false
      → context ≡ some user_id
      → Takes
          (create_goal oid (ok body))
          (record d { goals = (Goals.Create.insert_goal c.goals oid body user_id d.goals).1 })
  unfolding Goals.Create.insert_goal Repositories.Goals.create_goal
  goal_inserted body oid user_id titled known =
      let doc : Document = new_document oid body user_id in
      let new : IsNewGoal c context http (create_goal oid (ok body)) doc = record {
        user_id = user_id;
        known = known;
        oid = oid;
        body = body;
        asked = refl;
        titled = titled;
        made = refl;
      } in
      elim (Result-cases (c.goals.insert_one doc d.goals).0) [
        | inl (u, e) ↦
            let (rows, fresh) = c.goals.insert_one_ok doc d.goals u e in
            rw rows (goal_added doc new fresh)
        | inr (x, e) ↦ elim (c.goals.insert_one_err doc d.goals x e) [
          | inl same ↦ rw same idle
          | inr (rows, fresh) ↦ rw rows (goal_added doc new fresh)
        ]
      ]

  pub create_goal-Step :
      (clock : Clock) (limits : RateLimits) (oid : Bytes)
      (body : Result Exception CreateGoalRequestBody)
      → Takes (create_goal oid body) (record d {
        goals =
            (Goals.Create.handle c.goals clock oid body context
              (record { limits = limits; store = d.goals })).1.store;
      })
  unfolding Goals.Create.handle
  create_goal-Step clock limits oid (err e) = idle
  create_goal-Step clock limits oid (ok body) = elim (Bool-cases (is_empty body.title)) [
    | inl blank ↦ rw blank idle
    | inr titled ↦ rw titled (
        limited_takes Goals.Create.check_rate_limit "user_id not found in token" clock
          (Goals.Create.insert_goal c.goals oid body) (record { limits = limits; store = d.goals })
          context (λ goals. Takes (create_goal oid (ok body)) (record d { goals = goals }))
          (λ user_id. goal_inserted body oid user_id titled) idle)
  ]

  -- The stores of the task handlers after a call.
  abbrev TakesStores : Call → Stores c.tasks c.goals → Type 0
  TakesStores call s = Takes call (with_task_stores c d s)

  row_added :
      (call : Call) (goal_id : ℤ) (title : Bytes) (db' : c.tasks.Db) (row : TaskRow)
      → MayAdd c context http call (c.goals.documents d.goals) goal_id title
      → IsInserted goal_id title
          (c.tasks.goal_ids d.tasks)
          (c.tasks.primary d.tasks)
          (c.tasks.primary db')
          row
      → Takes call (record d { tasks = db' })
  row_added call goal_id title db' row may (same_goal, same_title, new, fresh, _, rows) = rw rows (
      task_added row
        (subst (λ g. MayAdd c context http call (c.goals.documents d.goals) g row.title)
          (sym same_goal)
          (subst (λ t. MayAdd c context http call (c.goals.documents d.goals) goal_id t)
            (sym same_title) may))
        new fresh)

  pub task_inserted :
      (call : Call) (goal_id : ℤ) (title : Bytes)
      → MayAdd c context http call (c.goals.documents d.goals) goal_id title
      → TakesStores call
          (Tasks.Create.insert_task c.tasks c.goals goal_id title (task_stores c d)).1
  unfolding Tasks.Create.insert_task Repositories.Tasks.create_task
  task_inserted call goal_id title may =
      elim (Result-cases (c.tasks.insert goal_id title d.tasks).0) [
        | inl (rows, e) ↦
            let (row, _, inserted) = c.tasks.insert_ok goal_id title d.tasks rows e in
            row_added call goal_id title _ row may inserted
        | inr (x, e) ↦ elim (c.tasks.insert_err goal_id title d.tasks x e) [
          | inl same ↦ rw same idle
          | inr (row, inserted) ↦ row_added call goal_id title _ row may inserted
        ]
      ]

  created_in_goal :
      (user_id : UserId) (goal_id : ℤ) (body : CreateTaskRequestBody)
      (found : Result Exception (Option Goal))
      → context ≡ some user_id
      → is_empty body.title ≡ false
      → value_of (stoll (http.get_path_arg "goalId")) ≡ some goal_id
      → get_by_id c.goals (http.get_path_arg "goalId") d.goals ≡ found
      → TakesStores
          (create_task (ok body))
          (Tasks.Create.in_goal c.tasks c.goals user_id goal_id body.title found
            (task_stores c d)).1
  unfolding Tasks.Create.in_goal
  created_in_goal user_id goal_id body (err e) known titled n h = idle
  created_in_goal user_id goal_id body (ok none) known titled n h = idle
  created_in_goal user_id goal_id body (ok (some goal)) known titled n h =
      elim (Bool-cases (is_owner user_id goal.user_id)) [
        | inl own ↦
            let (doc, stored, named, same) = get_by_id-stored c.goals _ d.goals goal h in
            rw own (
              task_inserted (create_task (ok body)) goal_id body.title (record {
                user_id = user_id;
                known = known;
                body = body;
                asked = refl;
                titled = titled;
                same_title = refl;
                number = n;
                doc = doc;
                stored = stored;
                named = named;
                owned =
                    (int_beq_iff doc.user_id user_id).0
                      (ap (λ (g : Goal). is_owner user_id g.user_id) same ∙ own);
              }))
        | inr other ↦ rw other idle
      ]

  create_numbered :
      (body : CreateTaskRequestBody) (user_id : UserId) (number : Option ℤ)
      → is_empty body.title ≡ false
      → value_of (stoll (http.get_path_arg "goalId")) ≡ number
      → context ≡ some user_id
      → TakesStores
          (create_task (ok body))
          (Tasks.Create.with_number c.tasks c.goals number http body user_id (task_stores c d)).1
  unfolding Tasks.Create.with_number
  create_numbered body user_id none titled n known = idle
  create_numbered body user_id (some goal_id) titled n known =
      created_in_goal user_id goal_id body _ known titled n refl

  pub create_task-Step :
      (clock : Clock) (limits : RateLimits) (body : Result Exception CreateTaskRequestBody)
      → TakesStores
          (create_task body)
          (Tasks.Create.handle c.tasks c.goals clock http body context
            (record { limits = limits; store = task_stores c d })).1.store
  unfolding Tasks.Create.handle Tasks.Create.create_in_goal
  create_task-Step clock limits (err e) = idle
  create_task-Step clock limits (ok body) = elim (Bool-cases (is_empty body.title)) [
    | inl blank ↦ rw blank idle
    | inr titled ↦ rw titled (
        limited_takes Tasks.Create.check_rate_limit "user_id not found in token" clock
          (Tasks.Create.create_in_goal c.tasks c.goals http body)
          (record { limits = limits; store = task_stores c d }) context
          (TakesStores (create_task (ok body)))
          (λ user_id. create_numbered body user_id _ titled refl) idle)
  ]

  pub status_written :
      (call : Call) (goal_id task_id : ℤ) (body : Result Exception UpdateTaskStatusRequest)
      → MaySet c context http call (c.goals.documents d.goals) goal_id task_id body
      → TakesStores call
          (Tasks.Update.write_status c.tasks c.goals goal_id task_id body (task_stores c d)).1
  unfolding Tasks.Update.write_status update_status
  status_written call goal_id task_id (err e) may = idle
  status_written call goal_id task_id (ok body) may = elim (Bool-cases (is_no_status body.status)) [
    | inl bad ↦ rw bad idle
    | inr good ↦
        let set = status_set goal_id task_id body may (IsStatus-cases body.status good) in
        elim (Result-cases (c.tasks.update goal_id task_id body.status d.tasks).0) [
          | inl (rows, e) ↦
              let (_, written) = c.tasks.update_ok goal_id task_id body.status d.tasks rows e in
              rw (good, written) set
          | inr (x, e) ↦ elim (c.tasks.update_err goal_id task_id body.status d.tasks x e) [
            | inl same ↦ rw (good, same) idle
            | inr written ↦ rw (good, written) set
          ]
        ]
  ]

  updated_in_goal :
      (user_id : UserId) (goal_id task_id : ℤ) (body : Result Exception UpdateTaskStatusRequest)
      (found : Result Exception (Option Goal))
      → context ≡ some user_id
      → parse_int (http.get_path_arg "goalId") ≡ some goal_id
      → parse_int (http.get_path_arg "taskId") ≡ some task_id
      → get_by_id c.goals (http.get_path_arg "goalId") d.goals ≡ found
      → TakesStores
          (update_task_status body)
          (Tasks.Update.in_goal c.tasks c.goals goal_id task_id body found (task_stores c d)).1
  unfolding Tasks.Update.in_goal
  updated_in_goal user_id goal_id task_id body (err e) known n m h = idle
  updated_in_goal user_id goal_id task_id body (ok none) known n m h = idle
  updated_in_goal user_id goal_id task_id body (ok (some goal)) known n m h =
      let (doc, stored, named, _) = get_by_id-stored c.goals _ d.goals goal h in
      status_written (update_task_status body) goal_id task_id body (record {
        user_id = user_id;
        known = known;
        asked = refl;
        goal_number = n;
        task_number = m;
        doc = doc;
        stored = stored;
        named = named;
      })

  update_numbered :
      (body : Result Exception UpdateTaskStatusRequest) (user_id : UserId) (goal task : Option ℤ)
      → parse_int (http.get_path_arg "goalId") ≡ goal
      → parse_int (http.get_path_arg "taskId") ≡ task
      → context ≡ some user_id
      → TakesStores
          (update_task_status body)
          (Tasks.Update.with_numbers c.tasks c.goals
            (Tasks.Update.both_numbers c.tasks c.goals goal task)
            http
            body
            (task_stores c d)).1
  unfolding Tasks.Update.with_numbers
  update_numbered body user_id none task n m known = idle
  update_numbered body user_id (some goal_id) none n m known = idle
  update_numbered body user_id (some goal_id) (some task_id) n m known =
      updated_in_goal user_id goal_id task_id body _ known n m refl

  pub update_task_status-Step :
      (clock : Clock) (limits : RateLimits) (body : Result Exception UpdateTaskStatusRequest)
      → TakesStores
          (update_task_status body)
          (Tasks.Update.handle c.tasks c.goals clock http body context
            (record { limits = limits; store = task_stores c d })).1.store
  unfolding Tasks.Update.handle Tasks.Update.update_in_goal
  update_task_status-Step clock limits body =
      limited_takes Tasks.Update.check_rate_limit "user_id not found  token" clock
        (Tasks.Update.update_in_goal c.tasks c.goals http body)
        (record { limits = limits; store = task_stores c d }) context
        (TakesStores (update_task_status body))
        (λ user_id. update_numbered body user_id _ _ refl refl) idle
