-- ===== src/Views/Tasks/Statuses.antt =====
-- Histories of requests to the three task handlers, in any order and with the limits of each, and the
-- statuses that the table then holds.
use leadertask_userver.Base.{
  Option, none, some, List, [], ◌∷◌, map, All, All-append, Bool-cases, inl, inr, Result-cases,
  Bytes, is_empty, Result, ok, err,
}
use leadertask_userver.Base.Int.{ℤ}
use leadertask_userver.RateLimit.{UserId, RateLimits}
use leadertask_userver.Definitions.{Exception, Goal, CreateTaskRequestBody, UpdateTaskStatusRequest}
use leadertask_userver.Http.{HttpRequest}
use leadertask_userver.Services.TasksTable.{TasksTable, TaskRow, IsInserted, is_task_of, set_status}
use leadertask_userver.Services.GoalsCollection.{GoalsCollection}
use leadertask_userver.Repositories.Tasks.{create_task, update_status}
use leadertask_userver.Repositories.Tasks.Methods.{IsStatus, is_no_status, IsStatus-cases}
use leadertask_userver.Views.Limited.{Clock, State}
use leadertask_userver.Views.Limited.Cases.{limited_keeps}
use leadertask_userver.Views.Tasks.Stores.{Stores, is_owner}
use leadertask_userver.Views.Tasks.Create
use leadertask_userver.Views.Tasks.List
use leadertask_userver.Views.Tasks.Update

-- A request to one of the endpoints.
pub data Request : Type 0 where
  post_task :
      (clock : Clock) (request : HttpRequest) (body : Result Exception CreateTaskRequestBody)
      (context : Option UserId)
      → Request
  get_tasks : (clock : Clock) (request : HttpRequest) (context : Option UserId) → Request
  put_status :
      (clock : Clock) (request : HttpRequest) (body : Result Exception UpdateTaskStatusRequest)
      (context : Option UserId)
      → Request

abbrev pub AllStatus : List TaskRow → Type 0
AllStatus rows = All (λ r. IsStatus r.status) rows

set_status-IsStatus :
    (id goal_id : ℤ) (st : Bytes) (r : TaskRow)
    → IsStatus st
    → IsStatus r.status
    → IsStatus (set_status id goal_id st r).status
set_status-IsStatus id goal_id st r new old = elim (Bool-cases (is_task_of id goal_id r)) [
  | inl own ↦ rw own new
  | inr other ↦ rw other old
]

pub map-AllStatus :
    (id goal_id : ℤ) (st : Bytes) (rows : List TaskRow)
    → IsStatus st
    → AllStatus rows
    → AllStatus (map (set_status id goal_id st) rows)
map-AllStatus id goal_id st [] new h = tt
map-AllStatus id goal_id st (r ∷ rows) new (h, k) =
    (set_status-IsStatus id goal_id st r new h, map-AllStatus id goal_id st rows new k)

module _ (table : TasksTable) (collection : GoalsCollection) where
  -- The three limits and the stores that the handlers share.
  pub record Server : Type 0 where
    pub post_limits : RateLimits
    pub get_limits : RateLimits
    pub put_limits : RateLimits
    pub stores : Stores table collection

  -- The server after it has answered a request.
  unfoldable pub serve : Request → Server → Server
  serve (post_task clock request body context) s =
      let after =
        (Create.handle table collection clock request body context
          (record { limits = s.post_limits; store = s.stores })).1 in
      record s { post_limits = after.limits; stores = after.store }
  serve (get_tasks clock request context) s =
      let after =
        (List.handle table collection clock request context
          (record { limits = s.get_limits; store = s.stores })).1 in
      record s { get_limits = after.limits; stores = after.store }
  serve (put_status clock request body context) s =
      let after =
        (Update.handle table collection clock request body context
          (record { limits = s.put_limits; store = s.stores })).1 in
      record s { put_limits = after.limits; stores = after.store }

  unfoldable pub serve_all : List Request → Server → Server
  unfolding serve
  serve_all [] s = s
  serve_all (r ∷ rs) s = serve_all rs (serve r s)

  -- Every row of the table has one of the three statuses.
  abbrev pub IsValid : Stores table collection → Type 0
  IsValid s = AllStatus (table.primary s.tasks)

  inserted-AllStatus :
      (goal_id : ℤ) (title : Bytes) (ids : List ℤ) (rows rows' : List TaskRow) (row : TaskRow)
      → IsInserted goal_id title ids rows rows' row
      → AllStatus rows
      → AllStatus rows'
  inserted-AllStatus goal_id title ids rows rows' row (_, _, fresh, _, _, e) h =
      rw e (All-append _ rows (row ∷ []) h (inl fresh, tt))

  create_task-AllStatus :
      (goal_id : ℤ) (title : Bytes) (db : table.Db)
      → AllStatus (table.primary db)
      → AllStatus (table.primary (create_task table goal_id title db).1)
  unfolding create_task
  create_task-AllStatus goal_id title db h = elim (Result-cases (table.insert goal_id title db).0) [
    | inl (rows, e) ↦
        let (row, _, inserted) = table.insert_ok goal_id title db rows e in
        inserted-AllStatus goal_id title _ _ _ row inserted h
    | inr (x, e) ↦ elim (table.insert_err goal_id title db x e) [
      | inl same ↦ rw same h
      | inr (row, inserted) ↦ inserted-AllStatus goal_id title _ _ _ row inserted h
    ]
  ]

  update_status-AllStatus :
      (id goal_id : ℤ) (st : Bytes) (db : table.Db)
      → AllStatus (table.primary db)
      → AllStatus (table.primary (update_status table id goal_id st db).1)
  unfolding update_status
  update_status-AllStatus id goal_id st db h = elim (Bool-cases (is_no_status st)) [
    | inl bad ↦ rw bad h
    | inr good ↦ elim (Result-cases (table.update id goal_id st db).0) [
      | inl (rows, e) ↦
          let (_, written) = table.update_ok id goal_id st db rows e in
          rw (good, written)
            (map-AllStatus id goal_id st (table.primary db) (IsStatus-cases st good) h)
      | inr (x, e) ↦ elim (table.update_err id goal_id st db x e) [
        | inl same ↦ rw (good, same) h
        | inr written ↦
            rw (good, written)
              (map-AllStatus id goal_id st (table.primary db) (IsStatus-cases st good) h)
      ]
    ]
  ]

  create-IsValid :
      (number : Option ℤ) (request : HttpRequest) (body : CreateTaskRequestBody) (user_id : UserId)
      (s : Stores table collection)
      → IsValid s
      → IsValid (Create.with_number table collection number request body user_id s).1
  unfolding Create.with_number Create.in_goal Create.insert_task
  create-IsValid none request body user_id s h = h
  create-IsValid (some goal_id) request body user_id s h = found_goal _
    where
      found_goal :
          (found : Result Exception (Option Goal))
          → IsValid (Create.in_goal table collection user_id goal_id body.title found s).1
      found_goal (err e) = h
      found_goal (ok none) = h
      found_goal (ok (some goal)) = elim (Bool-cases (is_owner user_id goal.user_id)) [
        | inl own ↦ rw own (create_task-AllStatus goal_id body.title s.tasks h)
        | inr other ↦ rw other h
      ]

  update-IsValid :
      (numbers : Option (ℤ × ℤ)) (request : HttpRequest)
      (body : Result Exception UpdateTaskStatusRequest) (s : Stores table collection)
      → IsValid s
      → IsValid (Update.with_numbers table collection numbers request body s).1
  unfolding Update.with_numbers Update.in_goal Update.write_status
  update-IsValid none request body s h = h
  update-IsValid (some (goal_id, task_id)) request body s h = found_goal _ body
    where
      found_goal :
          (found : Result Exception (Option Goal))
          (parsed : Result Exception UpdateTaskStatusRequest)
          → IsValid (Update.in_goal table collection goal_id task_id parsed found s).1
      found_goal (err e) parsed = h
      found_goal (ok none) parsed = h
      found_goal (ok (some goal)) (err e) = h
      found_goal (ok (some goal)) (ok b) =
          update_status-AllStatus goal_id task_id b.status s.tasks h

  handle_create-IsValid :
      (clock : Clock) (request : HttpRequest) (body : Result Exception CreateTaskRequestBody)
      (context : Option UserId) (s : State (Stores table collection))
      → IsValid s.store
      → IsValid (Create.handle table collection clock request body context s).1.store
  unfolding Create.handle Create.create_in_goal
  handle_create-IsValid clock request (err e) context s h = h
  handle_create-IsValid clock request (ok body) context s h =
      elim (Bool-cases (is_empty body.title)) [
        | inl blank ↦ rw blank h
        | inr titled ↦ rw titled (
            limited_keeps Create.check_rate_limit "user_id not found in token" clock
              (Create.create_in_goal table collection request body) s context IsValid
              (λ user_id. create-IsValid _ request body user_id s.store) h)
      ]

  serve-IsValid : (r : Request) (s : Server) → IsValid s.stores → IsValid (serve r s).stores
  unfolding serve List.handle List.list_goal Update.handle Update.update_in_goal
  serve-IsValid (post_task clock request body context) s h =
      handle_create-IsValid clock request body context
        (record { limits = s.post_limits; store = s.stores }) h
  serve-IsValid (get_tasks clock request context) s h =
      limited_keeps List.check_rate_limit "user_id not found in token" clock
        (List.list_goal table collection request)
        (record { limits = s.get_limits; store = s.stores }) context IsValid (λ user_id k. k) h
  serve-IsValid (put_status clock request body context) s h =
      limited_keeps Update.check_rate_limit "user_id not found  token" clock
        (Update.update_in_goal table collection request body)
        (record { limits = s.put_limits; store = s.stores }) context IsValid
        (λ user_id. update-IsValid _ request body s.stores) h

  -- If every row of the table has one of the three statuses, so it is after any history of requests to the
  -- three handlers, whatever their bodies ask for and whether they are answered, refused or throw.
  pub serve_all-IsValid :
      (rs : List Request) (s : Server) → IsValid s.stores → IsValid (serve_all rs s).stores
  unfolding serve_all
  serve_all-IsValid [] s h = h
  serve_all-IsValid (r ∷ rs) s h = serve_all-IsValid rs (serve r s) (serve-IsValid r s h)
