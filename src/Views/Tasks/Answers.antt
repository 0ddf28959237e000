-- ===== src/Views/Tasks/Answers.antt =====
-- Which requests the three handlers of src/views/tasks answer with a value: exactly these.
use leadertask_userver.Base.{
  ◌≡◌, ◌↔◌, refl, sym, ◌∙◌, ap, true, false, Option, none, some, List, [], ◌∷◌, map, is_empty, inl,
  inr, Bool-cases, Result-cases, Result, ok, Bytes,
}
use leadertask_userver.Base.Int.{ℤ, int_eq, int_beq_iff}
use leadertask_userver.Number.{stoll, value_of, parse_int}
use leadertask_userver.RateLimit.{UserId, check_rate_limit}
use leadertask_userver.Definitions.{
  Exception, Goal, Task, CreateTaskRequestBody, CreateTaskResponseBody, UpdateTaskStatusRequest,
}
use leadertask_userver.Http.{HttpRequest, reply, reply_with, created_201, ok_200}
use leadertask_userver.Services.TasksTable.{TasksTable, TaskRow}
use leadertask_userver.Services.GoalsCollection.{GoalsCollection, Document}
use leadertask_userver.Repositories.{optional_row}
use leadertask_userver.Repositories.Tasks.{
  create_task, get_by_goal, update_status, as_created, as_task,
}
use leadertask_userver.Repositories.Tasks.Methods.{
  IsStatus, is_no_status, IsStatus-cases, is_no_status-IsStatus,
}
use leadertask_userver.Repositories.Goals.{get_by_id, as_goal}
use leadertask_userver.Repositories.Goals.Methods.{get_by_id-stored}
use leadertask_userver.Views.Limited.{Clock, State}
use leadertask_userver.Views.Limited.Cases.{limited_passes, limited_reply}
use leadertask_userver.Views.Tasks.Stores.{Stores, is_owner}
use leadertask_userver.Views.Tasks.Create
use leadertask_userver.Views.Tasks.Create.Laws as CreateLaws
use leadertask_userver.Views.Tasks.List
use leadertask_userver.Views.Tasks.List.Laws as ListLaws
use leadertask_userver.Views.Tasks.Update
use leadertask_userver.Views.Tasks.Update.Laws as UpdateLaws

single_row_of :
    (rows : List TaskRow) (task : Task)
    → optional_row (map as_task rows) ≡ ok (some task)
    → (row : TaskRow) × (rows ≡ row ∷ [])
single_row_of [] task h = cc h
single_row_of (row ∷ []) task h = (row, refl)
single_row_of (row ∷ row' ∷ rows) task h = cc h

module _ (table : TasksTable) (collection : GoalsCollection) (clock : Clock) (request : HttpRequest)
    (user_id : UserId) (s : State (Stores table collection)) where
  -- The path begins with a number and names a goal that is found and is the user's.
  pub record OwnsGoal (goal_id : ℤ) : Type 0 where
    pub number : value_of (stoll (request.get_path_arg "goalId")) ≡ some goal_id
    pub doc : Document
    pub found :
        get_by_id collection (request.get_path_arg "goalId") s.store.goals ≡ ok (some (as_goal doc))
    pub owned : doc.user_id ≡ user_id

  abbrev pub IsWithinLimit : Type 0
  IsWithinLimit = (check_rate_limit clock.now clock.created user_id s.limits).0.allowed ≡ true

  owned_goal :
      (goal_id : ℤ) (g : Goal)
      → value_of (stoll (request.get_path_arg "goalId")) ≡ some goal_id
      → get_by_id collection (request.get_path_arg "goalId") s.store.goals ≡ ok (some g)
      → is_owner user_id g.user_id ≡ true
      → OwnsGoal goal_id
  owned_goal goal_id g n found own =
      let (doc, _, _, is_doc) = get_by_id-stored collection _ s.store.goals g found in
      record {
        number = n;
        doc = doc;
        found = found ∙ ap (λ (o : Goal). ok (some o)) (sym is_doc);
        owned =
            (int_beq_iff doc.user_id user_id).0
              (ap (λ (o : Goal). is_owner user_id o.user_id) is_doc ∙ own);
      }

  created_answer :
      (body : CreateTaskRequestBody) (number : Option ℤ) (goal_id : ℤ) (p : OwnsGoal goal_id)
      (row : TaskRow)
      → number ≡ some goal_id
      → (table.insert goal_id body.title s.store.tasks).0 ≡ ok (row ∷ [])
      → (Create.with_number table collection number request body user_id s.store).0
        ≡ reply_with created_201 (as_created row)
  unfolding Create.with_number Create.in_goal Create.insert_task create_task
  created_answer body number goal_id p row n inserted =
      rw (n, p.found, (int_beq_iff p.doc.user_id user_id).1 p.owned, inserted) refl

  inserted_rows :
      (goal_id : ℤ) (title : Bytes) (resp : CreateTaskResponseBody)
      → (Create.insert_task table collection goal_id title s.store).0 ≡ reply_with created_201 resp
      → (rows : List TaskRow) × ((table.insert goal_id title s.store.tasks).0 ≡ ok rows)
  unfolding Create.insert_task create_task
  inserted_rows goal_id title resp h =
      elim (Result-cases (table.insert goal_id title s.store.tasks).0) [
        | inl (rows, e) ↦ (rows, e)
        | inr (x, e) ↦ cc (rw e at h)
      ]

  -- A creation by some user is answered with a task exactly if its title is not empty, the call is within the limit,
  -- the path begins with a number and names a goal of that user, and the insertion succeeds.
  pub handle_create_iff :
      (body : CreateTaskRequestBody)
      → ((resp : CreateTaskResponseBody) × ((Create.handle table collection clock request
              (ok body)
              (some user_id)
              s).0
            ≡ reply_with created_201 resp))
        ↔ ((is_empty body.title ≡ false)
            × IsWithinLimit
            × (goal_id : ℤ) × OwnsGoal goal_id
            × (rows : List TaskRow) × ((table.insert goal_id body.title s.store.tasks).0 ≡ ok rows))
  unfolding Create.handle Create.create_in_goal
  handle_create_iff body = (
    λ (resp, h). elim (Bool-cases (is_empty body.title)) [
      | inl blank ↦ cc (rw blank at h)
      | inr titled ↦
          let (allowed, same) =
            limited_reply Create.check_rate_limit "user_id not found in token" clock
              (Create.create_in_goal table collection request body) s user_id _ refl
              (rw titled at h) in
          let (goal_id, n, g, found, own, to) =
            CreateLaws.with_number-reply table collection _ request body user_id s.store resp
              same in
          let (rows, e) = inserted_rows goal_id body.title resp (ap (λ r. r.0) (sym to) ∙ same) in
          (titled, allowed, goal_id, owned_goal goal_id g n found own, rows, e)
    ],
    λ (titled, allowed, goal_id, p, rows, e).
        let (row, one, _) = table.insert_ok goal_id body.title s.store.tasks rows e in
        (
          as_created row,
          rw titled (
              limited_passes Create.check_rate_limit "user_id not found in token" clock
                (Create.create_in_goal table collection request body) s user_id allowed
              ∙ created_answer body _ goal_id p row p.number (e ∙ ap (λ l. ok l) one)),
        ),
  )

  listed_answer :
      (number : Option ℤ) (goal_id : ℤ) (p : OwnsGoal goal_id) (rows : List TaskRow)
      → number ≡ some goal_id
      → table.select_by_goal goal_id s.store.tasks ≡ ok rows
      → List.with_number table collection number request user_id s.store ≡ reply (map as_task rows)
  unfolding List.with_number List.in_goal get_by_goal
  listed_answer number goal_id p rows n read =
      rw (n, p.found, (int_beq_iff p.doc.user_id user_id).1 p.owned, read)
        (ap (λ ts. reply ts) (ListLaws.copy_tasks_lem (map as_task rows)))

  listed_rows :
      (number : Option ℤ) (tasks : List Task)
      → value_of (stoll (request.get_path_arg "goalId")) ≡ number
      → List.with_number table collection number request user_id s.store ≡ reply tasks
      → (goal_id : ℤ) × OwnsGoal goal_id
        × (rows : List TaskRow) × (table.select_by_goal goal_id s.store.tasks ≡ ok rows)
        × (tasks ≡ map as_task rows)
  unfolding List.with_number
  listed_rows none tasks n h = cc h
  listed_rows (some goal_id) tasks n h =
      let (g, found, own, rows, read, shown) =
        ListLaws.in_goal_reply table collection user_id goal_id _ s.store tasks h in
      (goal_id, owned_goal goal_id g n found own, rows, read, shown)

  -- A list for some user is answered with these tasks exactly if the call is within the limit, the path begins with a
  -- number and names a goal of that user, and the query for the number gives the rows of these tasks.
  pub handle_list_iff :
      (tasks : List Task)
      → ((List.handle table collection clock request (some user_id) s).0 ≡ reply tasks) ↔ (
          IsWithinLimit
          × (goal_id : ℤ) × OwnsGoal goal_id
          × (rows : List TaskRow) × (table.select_by_goal goal_id s.store.tasks ≡ ok rows)
          × (tasks ≡ map as_task rows))
  unfolding List.handle List.list_goal
  handle_list_iff tasks = (
    λ h.
        let (allowed, same) =
          limited_reply List.check_rate_limit "user_id not found in token" clock
            (List.list_goal table collection request) s user_id _ refl h in
        let (goal_id, p, rows, read, shown) = listed_rows _ tasks refl same in
        (allowed, goal_id, p, rows, read, shown),
    λ (allowed, goal_id, p, rows, read, shown).
        limited_passes List.check_rate_limit "user_id not found in token" clock
          (List.list_goal table collection request) s user_id allowed
        ∙ listed_answer _ goal_id p rows p.number read
        ∙ ap (λ ts. reply ts) (sym shown),
  )

  -- The path has two whole numbers, and names a goal that is found, whosever it is.
  pub record NamesTask : Type 0 where
    pub goal_id : ℤ
    pub task_id : ℤ
    pub goal_number : parse_int (request.get_path_arg "goalId") ≡ some goal_id
    pub task_number : parse_int (request.get_path_arg "taskId") ≡ some task_id
    pub goal : Goal
    pub found : get_by_id collection (request.get_path_arg "goalId") s.store.goals ≡ ok (some goal)

  -- The body has one of the three statuses, and the statement with the numbers swapped gives one row.
  abbrev pub UpdatesTo : NamesTask → Result Exception UpdateTaskStatusRequest → TaskRow → Type 0
  UpdatesTo p body row =
      (b : UpdateTaskStatusRequest) × (body ≡ ok b)
      × IsStatus b.status
      × ((table.update p.goal_id p.task_id b.status s.store.tasks).0 ≡ ok (row ∷ []))

  updated_answer :
      (body : Result Exception UpdateTaskStatusRequest) (goal task : Option ℤ) (p : NamesTask)
      (row : TaskRow)
      → goal ≡ some p.goal_id
      → task ≡ some p.task_id
      → UpdatesTo p body row
      → (Update.with_numbers table collection
          (Update.both_numbers table collection goal task)
          request
          body
          s.store).0
        ≡ reply_with ok_200 (as_created row)
  unfolding Update.with_numbers Update.in_goal Update.write_status update_status
  updated_answer body goal task p row n m (b, parsed, valid, written) =
      rw (n, m, p.found, parsed, is_no_status-IsStatus b.status valid, written) refl

  written_row :
      (goal_id task_id : ℤ) (b : UpdateTaskStatusRequest) (task : Task)
      → (update_status table goal_id task_id b.status s.store.tasks).0 ≡ ok (some task)
      → IsStatus b.status
        × (row : TaskRow) × ((table.update goal_id task_id b.status s.store.tasks).0
            ≡ ok (row ∷ []))
  unfolding update_status
  written_row goal_id task_id b task h = elim (Bool-cases (is_no_status b.status)) [
    | inl bad ↦ cc (rw bad at h)
    | inr good ↦ elim (Result-cases (table.update goal_id task_id b.status s.store.tasks).0) [
      | inl (rows, e) ↦
          let (row, one) = single_row_of rows task (rw (good, e) at h) in
          (IsStatus-cases b.status good, row, e ∙ ap (λ l. ok l) one)
      | inr (x, e) ↦ cc (rw (good, e) at h)
    ]
  ]

  updated_by :
      (body : Result Exception UpdateTaskStatusRequest) (goal task : Option ℤ)
      (resp : CreateTaskResponseBody)
      → parse_int (request.get_path_arg "goalId") ≡ goal
      → parse_int (request.get_path_arg "taskId") ≡ task
      → (Update.with_numbers table collection
          (Update.both_numbers table collection goal task)
          request
          body
          s.store).0
        ≡ reply_with ok_200 resp
      → (p : NamesTask) × (row : TaskRow) × UpdatesTo p body row
  unfolding Update.with_numbers Update.write_status
  updated_by body none task resp n m h = cc h
  updated_by body (some goal_id) none resp n m h = cc h
  updated_by body (some goal_id) (some task_id) resp n m h =
      let after =
        (Update.with_numbers table collection (some (goal_id, task_id)) request body s.store).1 in
      let (g, found, b, parsed, same) =
        UpdateLaws.in_goal_reply table collection goal_id task_id body _ s.store after resp
          (λ i. (h i, after)) in
      let (task, e, _) = UpdateLaws.respond-some table collection _ resp (ap (λ r. r.0) same) in
      let (valid, row, written) = written_row goal_id task_id b task e in
      (
        record {
          goal_id = goal_id;
          task_id = task_id;
          goal_number = n;
          task_number = m;
          goal = g;
          found = found;
        },
        row,
        (b, parsed, valid, written),
      )

  -- An update by some user is answered with a task exactly if the call is within the limit, the path has two whole
  -- numbers, the first of which also names a goal that is found, whosever it is, the body was parsed and has one
  -- of the three statuses, and the statement gives one row, for the number of the goal as the id and that of the
  -- task as the goal.
  pub handle_update_iff :
      (body : Result Exception UpdateTaskStatusRequest)
      → ((resp : CreateTaskResponseBody) × ((Update.handle table collection clock request body
              (some user_id)
              s).0
            ≡ reply_with ok_200 resp))
        ↔ (IsWithinLimit × (p : NamesTask) × (row : TaskRow) × UpdatesTo p body row)
  unfolding Update.handle Update.update_in_goal
  handle_update_iff body = (
    λ (resp, h).
        let (allowed, same) =
          limited_reply Update.check_rate_limit "user_id not found  token" clock
            (Update.update_in_goal table collection request body) s user_id _ refl h in
        let (p, row, to) = updated_by body _ _ resp refl refl same in (allowed, p, row, to),
    λ (allowed, p, row, to). (
      as_created row,
      limited_passes Update.check_rate_limit "user_id not found  token" clock
            (Update.update_in_goal table collection request body) s user_id allowed
          ∙ updated_answer body _ _ p row p.goal_number p.task_number to,
    ),
  )
