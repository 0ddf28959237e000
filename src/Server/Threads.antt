-- ===== src/Server/Threads.antt =====
-- Requests at the same time. The handlers of src/views/tasks/create.cpp and update.cpp first read the goal and then
-- write the task, in two calls to two databases; calls of other requests may come between them.
pub mod Safe
use leadertask_userver.Base.{
  ◌≡◌, false, is_empty, Option, none, some, List, [], ◌∷◌, ◌++◌, if◌then◌else◌, Bytes, Result, ok,
  err,
}
use leadertask_userver.Base.Int.{ℤ}
use leadertask_userver.Number.{stoll, value_of, parse_int}
use leadertask_userver.RateLimit.{UserId}
use leadertask_userver.Definitions.{
  Exception, Goal, CreateTaskRequestBody, CreateTaskResponseBody, UpdateTaskStatusRequest,
}
use leadertask_userver.Http.{HttpRequest, Outcome, fail, bad_request_400, not_found_404}
use leadertask_userver.Repositories.Goals.{get_by_id}
use leadertask_userver.Views.Tasks
use leadertask_userver.Views.Tasks.Stores.{Stores, is_owner}
use leadertask_userver.Server.Defs.{
  Components, Request, create_task, update_task_status, Limits, Data, Server, task_stores,
  with_task_stores,
}
use leadertask_userver.Server.Dispatch.{acting, serve}

-- A handler between its two calls: the write that it will make.
pub data Pending : Type 0 where
  insert_pending : (user_id : UserId) (goal_id : ℤ) (title : Bytes) → Pending
  update_pending :
      (user_id : UserId) (goal_id task_id : ℤ) (body : Result Exception UpdateTaskStatusRequest)
      → Pending

-- A handler after its first call.
pub data Phase : Type 0 where
  answered : Outcome CreateTaskResponseBody → Phase
  waiting : Pending → Phase

module _ (c : Components) where
  abbrev goal_read_create : UserId → ℤ → Bytes → Result Exception (Option Goal) → Phase
  goal_read_create user_id goal_id title (err e) = answered (err e)
  goal_read_create user_id goal_id title (ok none) =
      answered (fail not_found_404 "goal not found in your account")
  goal_read_create user_id goal_id title (ok (some goal)) =
      if is_owner user_id goal.user_id
      then waiting (insert_pending user_id goal_id title)
      else answered (fail not_found_404 "goal not found")

  abbrev number_read :
      Option ℤ → HttpRequest → CreateTaskRequestBody → UserId → c.goals.Coll → Phase
  number_read none http body user_id goals = answered (fail bad_request_400 "invalid goalId")
  number_read (some goal_id) http body user_id goals =
      goal_read_create user_id goal_id body.title
        (get_by_id c.goals (http.get_path_arg "goalId") goals)

  -- The creation behind the limit, up to the insertion.
  unfoldable pub read_create : HttpRequest → CreateTaskRequestBody → UserId → c.goals.Coll → Phase
  read_create http body user_id goals =
      number_read (value_of (stoll (http.get_path_arg "goalId"))) http body user_id goals

  abbrev goal_read_update :
      UserId
      → ℤ
      → ℤ
      → Result Exception UpdateTaskStatusRequest
      → Result Exception (Option Goal)
      → Phase
  goal_read_update user_id goal_id task_id body (err e) = answered (err e)
  goal_read_update user_id goal_id task_id body (ok none) =
      answered (fail not_found_404 "goal not found")
  goal_read_update user_id goal_id task_id body (ok (some goal)) =
      waiting (update_pending user_id goal_id task_id body)

  abbrev numbers_read :
      Option (ℤ × ℤ)
      → HttpRequest
      → Result Exception UpdateTaskStatusRequest
      → UserId
      → c.goals.Coll
      → Phase
  numbers_read none http body user_id goals =
      answered (fail bad_request_400 "invalid path parameters")
  numbers_read (some (goal_id, task_id)) http body user_id goals =
      goal_read_update user_id goal_id task_id body
        (get_by_id c.goals (http.get_path_arg "goalId") goals)

  -- The update behind the limit, up to the statement.
  unfoldable pub read_update :
      HttpRequest → Result Exception UpdateTaskStatusRequest → UserId → c.goals.Coll → Phase
  read_update http body user_id goals =
      numbers_read
        (Tasks.Update.both_numbers c.tasks c.goals (parse_int (http.get_path_arg "goalId"))
          (parse_int (http.get_path_arg "taskId")))
        http body user_id goals

  -- The second call, whatever the stores hold by then.
  unfoldable pub write :
      Pending → Stores c.tasks c.goals → Outcome CreateTaskResponseBody × Stores c.tasks c.goals
  write (insert_pending user_id goal_id title) s =
      Tasks.Create.insert_task c.tasks c.goals goal_id title s
  write (update_pending user_id goal_id task_id body) s =
      Tasks.Update.write_status c.tasks c.goals goal_id task_id body s

  -- The server with the writes that handlers have yet to make, each with its request.
  pub record Threads : Type 0 where
    pub server : Server c
    pub pending : List (Request × Pending)

  -- The data with the stores of the task handlers after a write.
  abbrev pub written : Pending → Server c → Server c
  written p s = record s {
    stored = with_task_stores c s.stored (write p (task_stores c s.stored)).1;
  }

  -- What happens next: a request is served in one go; a creation with a title, or an update, of a user whom the
  -- checker finds reads its goal, the limits being then whatever they are; or one of the writes is made. The list
  -- has the request whose writing, if any, takes place.
  pub data Move (t : Threads) : List Request → Threads → Type 0 where
    serves :
        (r : Request)
        → Move t (r ∷ []) (record { server = (serve c r t.server).1; pending = t.pending })
    reads_create :
        (r : Request) (body : CreateTaskRequestBody) (user_id : UserId) (p : Pending)
        (limits : Limits)
        → r.call ≡ create_task (ok body)
        → is_empty body.title ≡ false
        → acting c r ≡ some user_id
        → read_create r.http body user_id t.server.stored.goals ≡ waiting p
        → Move t []
            (record { server = record t.server { limits = limits }; pending = (r, p) ∷ t.pending })
    reads_update :
        (r : Request) (body : Result Exception UpdateTaskStatusRequest) (user_id : UserId)
        (p : Pending) (limits : Limits)
        → r.call ≡ update_task_status body
        → acting c r ≡ some user_id
        → read_update r.http body user_id t.server.stored.goals ≡ waiting p
        → Move t []
            (record { server = record t.server { limits = limits }; pending = (r, p) ∷ t.pending })
    writes :
        (before after : List (Request × Pending)) (r : Request) (p : Pending)
        → t.pending ≡ before ++ (r, p) ∷ after
        → Move t (r ∷ []) (record { server = written p t.server; pending = before ++ after })

  -- Any number of moves, of any requests in any order, with the requests in the order of their writing.
  pub data Moves : Threads → List Request → Threads → Type 0 where
    none_yet : {t : Threads} → Moves t [] t
    then_moves :
        {rs more : List Request} {t u v : Threads}
        → Move t rs u
        → Moves u more v
        → Moves t (rs ++ more) v
