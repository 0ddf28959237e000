-- ===== src/Tests/FlowRuns.antt =====
-- One request after another: sign-up and login, and a task that is made or changed and then listed.
use leadertask_userver.Base.{
  ◌≡◌, ◌≢◌, refl, ℕ, true, false, Option, none, some, List, [], ◌∷◌, ◌++◌, Memᴰ, Bytes, codes, ok,
  err, arith, inl,
}
use leadertask_userver.Base.Int.{ℤ, pos, int_eq}
use leadertask_userver.Definitions.{Task, CreateTaskResponseBody, UpdateTaskStatusRequest}
use leadertask_userver.Http.{HttpRequest, reply}
use leadertask_userver.Number.{parse_int}
use leadertask_userver.Views.Tasks.Update.Swapped.{handle-swapped}
use leadertask_userver.Storage.Status.{todo, done}
use leadertask_userver.Services.UsersTable.{UserRow}
use leadertask_userver.Services.TasksTable.{TaskRow}
use leadertask_userver.Repositories.Tasks.{as_created}
use leadertask_userver.Auth.{accepted, rejected, algorithm, check_auth}
use leadertask_userver.Auth.SignUp.{login_of, check_auth-signup}
use leadertask_userver.Views.Limited.{State}
use leadertask_userver.Views.Users.Signup
use leadertask_userver.Views.Users.Login
use leadertask_userver.Views.Tasks
use leadertask_userver.Views.Tasks.Stores.{Stores}
use leadertask_userver.Views.Tasks.Visible.{as_item, list_tasks-update}
use leadertask_userver.Tests.Tasks.{memory_tasks}
use leadertask_userver.Tests.Goals.{memory_goals}
use leadertask_userver.Tests.Users.{memory_users, open_tokens}
use leadertask_userver.Tests.ServiceRuns.{db, sign_up_of, second}
use leadertask_userver.Tests.World.{
  owner, oid_1, goal_of, start, clock, request_of, new_task, parsed_status,
}

abbrev oid_2 : Bytes
oid_2 = codes "000000000000000000000002"

abbrev bob : UserRow
bob = record {
  id = pos 2;
  login = codes "bob";
  password = codes "pw";
  first_name = codes "Bob";
  last_name = codes "Ray";
}

check_auth-signup_example :
    (Login.handle memory_users open_tokens
        (codes "key")
        (ok (login_of (sign_up_of (codes "bob"))))
        (Signup.handle memory_users (ok (sign_up_of (codes "bob"))) db).1
      ≡ reply (record { access_token = codes "2" }))
    × (check_auth open_tokens (codes "key") (algorithm ++ codes "2")
        ≡ (rejected accepted "" none, some (pos 2)))
unfolding Signup.handle leadertask_userver.Repositories.Users.create_user
    leadertask_userver.Tests.Users.insert leadertask_userver.Base.bytes_beq
    leadertask_userver.Tests.Users.select leadertask_userver.Number.to_string
    leadertask_userver.Number.digits
check_auth-signup_example =
    check_auth-signup memory_users open_tokens (codes "key") (sign_up_of (codes "bob")) db second
      (bob ∷ []) (codes "2") refl refl refl refl (omega arith)

-- The store that a request leaves, behind the list's own limit.
abbrev made : State (Stores memory_tasks memory_goals)
made = record {
  limits = [];
  store =
      (Tasks.Create.handle memory_tasks memory_goals clock (request_of oid_1 []) (ok new_task)
        (some owner) start).1.store;
}

-- A task of the goal 2 with the id 1, and the two goals with these numbers.
abbrev crossed : State (Stores memory_tasks memory_goals)
crossed = record {
  limits = [];
  store = record {
    tasks = record {
      next = 2;
      rows = record { id = pos 1; goal_id = pos 2; title = codes "write"; status = todo } ∷ [];
      below = ((1, refl, omega arith), tt);
    };
    goals = goal_of oid_1 owner ∷ goal_of oid_2 owner ∷ [];
  };
}

-- The path names the goal 1 and the task 2.
abbrev crossed_request : HttpRequest
crossed_request = request_of oid_1 (codes "2")

abbrev crossed_reply : CreateTaskResponseBody
crossed_reply = record { id = pos 1; goal_id = pos 2; title = codes "write"; status = done }

abbrev to_done : UpdateTaskStatusRequest
to_done = record { status = done }

abbrev changed : State (Stores memory_tasks memory_goals)
changed = record {
  limits = [];
  store =
      (Tasks.Update.handle memory_tasks memory_goals clock crossed_request parsed_status
        (some owner) crossed).1.store;
}

abbrev two_tasks : List Task
two_tasks =
    record { id = pos 1; goal_id = pos 1; title = codes "write"; status = todo }
    ∷ record { id = pos 2; goal_id = pos 1; title = codes "read"; status = todo }
    ∷ []

abbrev one_task : List Task
one_task = record { id = pos 1; goal_id = pos 2; title = codes "write"; status = done } ∷ []

list_tasks-update_example :
    (crossed_reply.status ≡ to_done.status) × Memᴰ (as_item crossed_reply) one_task
unfolding parse_int leadertask_userver.Number.stoll leadertask_userver.Views.Tasks.Update.handle
    leadertask_userver.Views.Limited.limited leadertask_userver.RateLimit.check_rate_limit
    leadertask_userver.Repositories.Goals.get_by_id leadertask_userver.Tests.Goals.parse_oid
    leadertask_userver.Tests.Goals.find_one leadertask_userver.Base.bytes_beq
    leadertask_userver.Repositories.Tasks.update_status leadertask_userver.Tests.Tasks.update
    leadertask_userver.Base.Int.int_beq leadertask_userver.Views.Tasks.List.handle
    leadertask_userver.Repositories.Tasks.get_by_goal leadertask_userver.Tests.Tasks.select_by_goal
    leadertask_userver.Views.Tasks.List.copy_tasks
list_tasks-update_example =
    list_tasks-update memory_tasks memory_goals clock clock crossed_request (request_of oid_2 [])
      to_done (some owner) (some owner) crossed changed crossed_reply one_task refl refl refl refl
      refl

handle-swapped_example :
    (goal_id : ℤ) × (task_id : ℤ) × (b : UpdateTaskStatusRequest) × (parse_int
        (crossed_request.get_path_arg "goalId")
      ≡ some goal_id)
    × (parse_int (crossed_request.get_path_arg "taskId") ≡ some task_id)
    × (parsed_status ≡ ok b)
    × (old : TaskRow) × Memᴰ old crossed.store.tasks.rows
    × (old.id ≡ goal_id)
    × (old.goal_id ≡ task_id)
    × Memᴰ (record old { status = b.status }) changed.store.tasks.rows
    × (crossed_reply ≡ as_created (record old { status = b.status }))
    × ((r : TaskRow)
        → Memᴰ r crossed.store.tasks.rows
        → r.id ≢ goal_id
        → Memᴰ r changed.store.tasks.rows)
unfolding leadertask_userver.Views.Tasks.Update.handle leadertask_userver.Views.Limited.limited
    leadertask_userver.RateLimit.check_rate_limit parse_int
    leadertask_userver.Repositories.Goals.get_by_id leadertask_userver.Tests.Goals.parse_oid
    leadertask_userver.Tests.Goals.find_one leadertask_userver.Base.bytes_beq
    leadertask_userver.Repositories.Tasks.update_status leadertask_userver.Tests.Tasks.update
    leadertask_userver.Base.Int.int_beq
handle-swapped_example =
    handle-swapped memory_tasks memory_goals clock crossed_request parsed_status (some owner)
      crossed crossed_reply refl
