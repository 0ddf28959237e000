-- ===== src/Views/Tasks/Update/Laws.antt =====
-- What src/views/tasks/update.cpp changes, and which requests it refuses.
use leadertask_userver.Base.{
  ℕ, ◌≡◌, refl, sym, ◌∙◌, ap, ◌≢◌, false, Option, none, some, [], ◌∷◌, map, Memᴰ, inl, inr, Bytes,
  Result, ok, err, filter,
}
use leadertask_userver.Base.Int.{ℤ, int_eq}
use leadertask_userver.Number.{parse_int}
use leadertask_userver.Number.ObjectId.{IsObjectId, parse_int-IsObjectId}
use leadertask_userver.RateLimit.{UserId}
use leadertask_userver.Definitions.{
  Exception, Goal, Task, CreateTaskResponseBody, UpdateTaskStatusRequest,
}
use leadertask_userver.Http.{HttpRequest, reply_with, ok_200, reply_with-injective}
use leadertask_userver.Services.TasksTable.{TasksTable, is_task_of, set_status}
use leadertask_userver.Services.GoalsCollection.{GoalsCollection, Document}
use leadertask_userver.Repositories.Tasks.{as_task}
use leadertask_userver.Repositories.Tasks.Methods.{IsStatus, update_status_ok}
use leadertask_userver.Repositories.Goals.Methods.{get_by_id-stored}
use leadertask_userver.Views.Limited.{Clock, State, keep_limits}
use leadertask_userver.Views.Limited.Cases.{limited_value, limited_cases}
use leadertask_userver.Views.Limited.Rate.{is_value}
use leadertask_userver.Views.Tasks.Stores.{Stores}
use leadertask_userver.Views.Tasks.Update.{
  check_rate_limit, respond, write_status, in_goal, both_numbers, with_numbers, update_in_goal,
  handle,
}

module _ (table : TasksTable) (collection : GoalsCollection) where
  both_numbers-none :
      (goal_id task_id : Option ℤ)
      → goal_id ≡ none
      → both_numbers table collection goal_id task_id ≡ none
  both_numbers-none none task_id e = refl
  both_numbers-none (some g) none e = refl
  both_numbers-none (some g) (some t) e = cc e

  refused_body :
      (c : ℕ) (t : Bytes) (request : HttpRequest) (body : Result Exception UpdateTaskStatusRequest)
      (user_id : UserId) (s : Stores table collection)
      → IsObjectId (c ∷ t)
      → c ≢ b'0'
      → request.get_path_arg "goalId" ≡ c ∷ t
      → update_in_goal table collection request body user_id s
        ≡ with_numbers table collection none request body s
  unfolding update_in_goal
  refused_body c t request body user_id s h nonzero p =
      ap (λ n. with_numbers table collection n request body s)
        (both_numbers-none _ _ (ap parse_int p ∙ parse_int-IsObjectId c t h nonzero))

  -- A request whose path names a goal by an object id that does not begin with a zero is refused, whatever
  -- the goal, the task, the user and the body are, and changes nothing in the stores.
  pub handle-IsObjectId :
      (c : ℕ) (t : Bytes) (clock : Clock) (request : HttpRequest)
      (body : Result Exception UpdateTaskStatusRequest) (context : Option UserId)
      (s : State (Stores table collection))
      → IsObjectId (c ∷ t)
      → c ≢ b'0'
      → request.get_path_arg "goalId" ≡ c ∷ t
      → (is_value (handle table collection clock request body context s).0 ≡ false)
        × ((handle table collection clock request body context s).1.store ≡ s.store)
  unfolding handle with_numbers
  handle-IsObjectId c t clock request body context s h nonzero p =
      elim (limited_cases check_rate_limit "user_id not found  token" clock
        (update_in_goal table collection request body) s context) [
          | inl q ↦
              let refused =
                q.result
                ∙ ap (keep_limits _)
                    (refused_body c t request body q.user_id s.store h nonzero p) in
              (ap (λ r. is_value r.0) refused, ap (λ r. r.1.store) refused)
          | inr q ↦ (q.no_value, q.store)
        ]

  -- A task that was updated through a goal of the path. The handler gives the two numbers to `UpdateStatus` in
  -- the order goal, task, and the repository takes them in the order task, goal.
  pub record IsUpdated (request : HttpRequest) (status : Bytes) (s s' : Stores table collection)
      (resp : CreateTaskResponseBody) : Type 0 where
    pub goal_id : ℤ
    pub task_id : ℤ
    pub goal_number : parse_int (request.get_path_arg "goalId") ≡ some goal_id
    pub task_number : parse_int (request.get_path_arg "taskId") ≡ some task_id
    pub goal : Document
    pub stored : Memᴰ goal (collection.documents s.goals)
    pub named : collection.parse_oid (request.get_path_arg "goalId") ≡ ok goal.oid
    pub is_status : IsStatus status
    pub task : Task
    pub single :
        map as_task (
          map
            (set_status goal_id task_id status)
            (filter (is_task_of goal_id task_id) (table.primary s.tasks)))
        ≡ task ∷ []
    pub written :
        table.primary s'.tasks ≡ map (set_status goal_id task_id status) (table.primary s.tasks)
    pub replied :
        resp
        ≡ record { id = task.id; goal_id = task.goal_id; title = task.title; status = task.status }
    pub goals_same : s'.goals ≡ s.goals

  pub respond-some :
      (updated : Result Exception (Option Task)) (resp : CreateTaskResponseBody)
      → respond updated ≡ reply_with ok_200 resp
      → (task : Task) × (updated ≡ ok (some task))
        × (resp ≡ record {
          id = task.id;
          goal_id = task.goal_id;
          title = task.title;
          status = task.status;
        })
  respond-some (err e) resp h = cc h
  respond-some (ok none) resp h = cc h
  respond-some (ok (some task)) resp h = (task, refl, sym (reply_with-injective ok_200 _ resp h))

  write_status-IsUpdated :
      (goal_id task_id : ℤ) (body : UpdateTaskStatusRequest) (request : HttpRequest)
      (s s' : Stores table collection) (resp : CreateTaskResponseBody) (d : Document)
      → parse_int (request.get_path_arg "goalId") ≡ some goal_id
      → parse_int (request.get_path_arg "taskId") ≡ some task_id
      → Memᴰ d (collection.documents s.goals)
      → collection.parse_oid (request.get_path_arg "goalId") ≡ ok d.oid
      → write_status table collection goal_id task_id (ok body) s ≡ (reply_with ok_200 resp, s')
      → IsUpdated request body.status s s' resp
  unfolding write_status
  write_status-IsUpdated goal_id task_id body request s s' resp d goal_number task_number stored
        named h =
      let (task, e, replied) = respond-some _ resp (ap (λ r. r.0) h) in
      let (is_status, single, written) =
        update_status_ok table goal_id task_id body.status s.tasks task e in
      record {
        goal_id = goal_id;
        task_id = task_id;
        goal_number = goal_number;
        task_number = task_number;
        goal = d;
        stored = stored;
        named = named;
        is_status = is_status;
        task = task;
        single = single;
        written = ap (λ r. table.primary r.1.tasks) (sym h) ∙ written;
        replied = replied;
        goals_same = ap (λ r. r.1.goals) (sym h);
      }

  pub in_goal_reply :
      (goal_id task_id : ℤ) (body : Result Exception UpdateTaskStatusRequest)
      (found : Result Exception (Option Goal)) (s s' : Stores table collection)
      (resp : CreateTaskResponseBody)
      → in_goal table collection goal_id task_id body found s ≡ (reply_with ok_200 resp, s')
      → (g : Goal) × (found ≡ ok (some g))
        × (b : UpdateTaskStatusRequest) × (body ≡ ok b)
        × (write_status table collection goal_id task_id (ok b) s ≡ (reply_with ok_200 resp, s'))
  unfolding in_goal write_status
  in_goal_reply goal_id task_id body (err e) s s' resp h = cc (ap (λ r. r.0) h)
  in_goal_reply goal_id task_id body (ok none) s s' resp h = cc (ap (λ r. r.0) h)
  in_goal_reply goal_id task_id (err e) (ok (some g)) s s' resp h = cc (ap (λ r. r.0) h)
  in_goal_reply goal_id task_id (ok b) (ok (some g)) s s' resp h = (g, refl, b, refl, h)

  with_numbers_reply :
      (goal_number task_number : Option ℤ) (request : HttpRequest)
      (body : Result Exception UpdateTaskStatusRequest) (s s' : Stores table collection)
      (resp : CreateTaskResponseBody)
      → parse_int (request.get_path_arg "goalId") ≡ goal_number
      → parse_int (request.get_path_arg "taskId") ≡ task_number
      → with_numbers table collection
          (both_numbers table collection goal_number task_number)
          request
          body
          s
        ≡ (reply_with ok_200 resp, s')
      → (b : UpdateTaskStatusRequest) × (body ≡ ok b) × IsUpdated request b.status s s' resp
  unfolding with_numbers
  with_numbers_reply none task_number request body s s' resp e f h = cc (ap (λ r. r.0) h)
  with_numbers_reply (some goal_id) none request body s s' resp e f h = cc (ap (λ r. r.0) h)
  with_numbers_reply (some goal_id) (some task_id) request body s s' resp e f h =
      let (g, found, b, parsed, same) = in_goal_reply goal_id task_id body _ s s' resp h in
      let (d, stored, named, _) =
        get_by_id-stored collection (request.get_path_arg "goalId") s.goals g found in
      (
        b,
        parsed,
        write_status-IsUpdated goal_id task_id b request s s' resp d e f stored named same,
      )

  -- If the handler replies with a task, some user is known, both path arguments are whole numbers, the first
  -- one is also the id of a stored goal, the body was parsed, and its status is one of the three. Exactly one
  -- row of the table has the number of the goal as its id and the number of the task as its goal; the table
  -- is as before with the status of that row set, the reply is that row, and the collection of goals is
  -- unchanged.
  pub handle-IsUpdated :
      (clock : Clock) (request : HttpRequest) (body : Result Exception UpdateTaskStatusRequest)
      (context : Option UserId) (s : State (Stores table collection))
      (resp : CreateTaskResponseBody)
      → (handle table collection clock request body context s).0 ≡ reply_with ok_200 resp
      → (user_id : UserId) × (context ≡ some user_id)
        × (b : UpdateTaskStatusRequest) × (body ≡ ok b)
        × IsUpdated request b.status s.store
            (handle table collection clock request body context s).1.store
            resp
  unfolding handle update_in_goal
  handle-IsUpdated clock request body context s resp h =
      let (user_id, known, same) =
        limited_value check_rate_limit "user_id not found  token" clock
          (update_in_goal table collection request body) s context _ refl h in
      let (b, parsed, updated) =
        with_numbers_reply _ _ request body s.store _ resp refl refl same in
      (user_id, known, b, parsed, updated)
