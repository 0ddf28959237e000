-- ===== src/Views/Tasks/Create/Laws.antt =====
-- When src/views/tasks/create.cpp creates a task, and what it changes.
use leadertask_userver.Base.{
  ◌≡◌, refl, sym, ◌∙◌, ap, true, false, Option, none, some, [], ◌∷◌, ◌++◌, Memᴰ, inl, inr,
  Bool-cases, Result-cases, Bytes, is_empty, Result, ok, err,
}
use leadertask_userver.Base.Int.{ℤ, int_eq, int_beq_iff}
use leadertask_userver.Number.{stoll, value_of}
use leadertask_userver.RateLimit.{UserId}
use leadertask_userver.Definitions.{Exception, Goal, CreateTaskRequestBody, CreateTaskResponseBody}
use leadertask_userver.Http.{HttpRequest, reply_with, reply_with-injective, created_201}
use leadertask_userver.Storage.Status.{todo}
use leadertask_userver.Services.TasksTable.{TasksTable, TaskRow, IsInserted}
use leadertask_userver.Services.GoalsCollection.{GoalsCollection, Document}
use leadertask_userver.Repositories.Tasks.{create_task, as_created}
use leadertask_userver.Repositories.Goals.{get_by_id}
use leadertask_userver.Repositories.Goals.Methods.{get_by_id-stored}
use leadertask_userver.Views.Limited.{Clock, State, limited}
use leadertask_userver.Views.Limited.Cases.{limited_value}
use leadertask_userver.Views.Tasks.Stores.{Stores, is_owner}
use leadertask_userver.Views.Tasks.Create.{
  check_rate_limit, insert_task, in_goal, with_number, create_in_goal, handle,
}

module _ (table : TasksTable) (collection : GoalsCollection) where
  -- A task that was created for a user in the goal of the path.
  pub record IsCreated (request : HttpRequest) (title : Bytes) (user_id : UserId)
      (s s' : Stores table collection) (resp : CreateTaskResponseBody) : Type 0 where
    pub goal_id : ℤ
    pub number : value_of (stoll (request.get_path_arg "goalId")) ≡ some goal_id
    pub goal : Document
    pub stored : Memᴰ goal (collection.documents s.goals)
    pub named : collection.parse_oid (request.get_path_arg "goalId") ≡ ok goal.oid
    pub owned : goal.user_id ≡ user_id
    pub referenced : Memᴰ goal_id (table.goal_ids s.tasks)
    pub row : TaskRow
    pub inserted : table.primary s'.tasks ≡ table.primary s.tasks ++ row ∷ []
    pub in_goal : row.goal_id ≡ goal_id
    pub titled : row.title ≡ title
    pub fresh : row.status ≡ todo
    pub replied : resp ≡ as_created row
    pub goals_same : s'.goals ≡ s.goals

  insert_task-rows :
      (goal_id : ℤ) (title : Bytes) (s : Stores table collection) (resp : CreateTaskResponseBody)
      → (insert_task table collection goal_id title s).0 ≡ reply_with created_201 resp
      → (row : TaskRow) × (resp ≡ as_created row)
        × IsInserted goal_id title
            (table.goal_ids s.tasks)
            (table.primary s.tasks)
            (table.primary (table.insert goal_id title s.tasks).1)
            row
  unfolding insert_task create_task
  insert_task-rows goal_id title s resp h =
      elim (Result-cases (table.insert goal_id title s.tasks).0) [
        | inl (rows, e) ↦
            let (row, one, inserted) = table.insert_ok goal_id title s.tasks rows e in
            (row, sym (reply_with-injective created_201 _ resp (rw (e, one) at h)), inserted)
        | inr (x, e) ↦ cc (rw e at h)
      ]

  in_goal_reply :
      (user_id : UserId) (goal_id : ℤ) (title : Bytes) (found : Result Exception (Option Goal))
      (s : Stores table collection) (resp : CreateTaskResponseBody)
      → (in_goal table collection user_id goal_id title found s).0 ≡ reply_with created_201 resp
      → (g : Goal) × (found ≡ ok (some g))
        × (is_owner user_id g.user_id ≡ true)
        × (in_goal table collection user_id goal_id title found s
            ≡ insert_task table collection goal_id title s)
  unfolding in_goal
  in_goal_reply user_id goal_id title (err e) s resp h = cc h
  in_goal_reply user_id goal_id title (ok none) s resp h = cc h
  in_goal_reply user_id goal_id title (ok (some g)) s resp h =
      elim (Bool-cases (is_owner user_id g.user_id)) [
        | inl own ↦ (g, refl, own, rw own refl)
        | inr other ↦ cc (rw other at h)
      ]

  -- A reply of the handler's body is that of `CreateTask` in a goal of the user.
  pub with_number-reply :
      (number : Option ℤ) (request : HttpRequest) (body : CreateTaskRequestBody) (user_id : UserId)
      (s : Stores table collection) (resp : CreateTaskResponseBody)
      → (with_number table collection number request body user_id s).0 ≡ reply_with created_201 resp
      → (goal_id : ℤ) × (number ≡ some goal_id)
        × (g : Goal) × (get_by_id collection (request.get_path_arg "goalId") s.goals ≡ ok (some g))
        × (is_owner user_id g.user_id ≡ true)
        × (with_number table collection number request body user_id s
            ≡ insert_task table collection goal_id body.title s)
  unfolding with_number
  with_number-reply none request body user_id s resp h = cc h
  with_number-reply (some goal_id) request body user_id s resp h =
      let (g, found, own, same) = in_goal_reply user_id goal_id body.title _ s resp h in
      (goal_id, refl, g, found, own, same)

  insert_task-IsCreated :
      (request : HttpRequest) (title : Bytes) (user_id : UserId) (goal_id : ℤ)
      (s s' : Stores table collection) (resp : CreateTaskResponseBody) (d : Document)
      → value_of (stoll (request.get_path_arg "goalId")) ≡ some goal_id
      → Memᴰ d (collection.documents s.goals)
      → collection.parse_oid (request.get_path_arg "goalId") ≡ ok d.oid
      → d.user_id ≡ user_id
      → insert_task table collection goal_id title s ≡ (reply_with created_201 resp, s')
      → IsCreated request title user_id s s' resp
  unfolding insert_task create_task
  insert_task-IsCreated request title user_id goal_id s s' resp d number stored named owned h =
      let (row, replied, inserted) = insert_task-rows goal_id title s resp (ap (λ r. r.0) h) in
      let (same_goal, same_title, fresh, _, referenced, rows) = inserted in
      record {
        goal_id = goal_id;
        number = number;
        goal = d;
        stored = stored;
        named = named;
        owned = owned;
        referenced = referenced;
        row = row;
        inserted = ap (λ r. table.primary r.1.tasks) (sym h) ∙ rows;
        in_goal = same_goal;
        titled = same_title;
        fresh = fresh;
        replied = replied;
        goals_same = ap (λ r. r.1.goals) (sym h);
      }

  create_in_goal-IsCreated :
      (request : HttpRequest) (body : CreateTaskRequestBody) (user_id : UserId)
      (s s' : Stores table collection) (resp : CreateTaskResponseBody)
      → create_in_goal table collection request body user_id s ≡ (reply_with created_201 resp, s')
      → IsCreated request body.title user_id s s' resp
  unfolding create_in_goal
  create_in_goal-IsCreated request body user_id s s' resp h =
      let (goal_id, number, g, found, own, same) =
        with_number-reply _ request body user_id s resp (ap (λ r. r.0) h) in
      let (d, stored, named, is_d) =
        get_by_id-stored collection (request.get_path_arg "goalId") s.goals g found in
      insert_task-IsCreated request body.title user_id goal_id s s' resp d number stored named
        ((int_beq_iff d.user_id user_id).0
          (ap (λ (o : Goal). is_owner user_id o.user_id) is_d ∙ own))
        (sym same ∙ h)

  limited-IsCreated :
      (clock : Clock) (request : HttpRequest) (body : CreateTaskRequestBody)
      (context : Option UserId) (s : State (Stores table collection))
      (resp : CreateTaskResponseBody)
      → (limited check_rate_limit "user_id not found in token" clock context
          (create_in_goal table collection request body)
          s).0
        ≡ reply_with created_201 resp
      → (user_id : UserId) × (context ≡ some user_id)
        × IsCreated request body.title user_id s.store
            (limited check_rate_limit "user_id not found in token" clock context
              (create_in_goal table collection request body)
              s).1.store
            resp
  limited-IsCreated clock request body context s resp h =
      let (user_id, known, same) =
        limited_value check_rate_limit "user_id not found in token" clock
          (create_in_goal table collection request body) s context _ refl h in
      (user_id, known, create_in_goal-IsCreated request body user_id s.store _ resp same)

  -- If the handler replies with a task, the title is not empty, the user is known, the path names a stored
  -- goal of that user, and the table has one row more: a new row with that title and the status `todo`,
  -- under the number that `std::stoll` makes of the path argument, which is an id of the table `goals` of
  -- PostgreSQL. The reply is that row, and the collection of goals is unchanged.
  pub handle-IsCreated :
      (clock : Clock) (request : HttpRequest) (body : CreateTaskRequestBody)
      (context : Option UserId) (s : State (Stores table collection))
      (resp : CreateTaskResponseBody)
      → (handle table collection clock request (ok body) context s).0 ≡ reply_with created_201 resp
      → (is_empty body.title ≡ false)
        × (user_id : UserId) × (context ≡ some user_id)
        × IsCreated request body.title user_id s.store
            (handle table collection clock request (ok body) context s).1.store
            resp
  unfolding handle
  handle-IsCreated clock request body context s resp h = elim (Bool-cases (is_empty body.title)) [
    | inl blank ↦ cc (rw blank at h)
    | inr titled ↦
        let (user_id, known, done) =
          limited-IsCreated clock request body context s resp (rw titled at h) in
        (titled, user_id, known, rw titled done)
  ]
