-- ===== src/Tests/LastingRuns.antt =====
-- What the server has made, seen by later requests.
use leadertask_userver.Base.{◌≡◌, refl, none, some, List, [], ◌∷◌, Memᴰ, codes, ok}
use leadertask_userver.Base.Int.{pos}
use leadertask_userver.RateLimit.{UserId}
use leadertask_userver.Definitions.{CreateGoalRequestBody, CreateGoalResponseBody, Goal, Task}
use leadertask_userver.Storage.Status.{todo, done}
use leadertask_userver.Repositories.Goals.{as_goal}
use leadertask_userver.Views.Limited.{Clock}
use leadertask_userver.Views.Goals.Laws.{new_document}
use leadertask_userver.Server.Defs.{
  Request, create_goal, create_task, signup, update_task_status, Server,
}
use leadertask_userver.Server.Dispatch.{acting, serve, serve_all}
use leadertask_userver.Server.Lasting.{request_of, list_goals-create_goal, list_tasks-create_task}
use leadertask_userver.Tests.ServiceRuns.{sign_up_of}
use leadertask_userver.Tests.Server.{components, server, http_of}
use leadertask_userver.Tests.World.{
  owner, oid_1, oid_7a, goal_of, clock, new_task, created, parsed_status,
}

abbrev afterwards : Clock
afterwards = record { now = 5_000_000_000; created = 5_000_000_000 }

-- Another user comes, and the only task is done.
abbrev between : List Request
between =
    request_of clock (http_of []) (signup (ok (sign_up_of (codes "bob"))))
    ∷ request_of clock (http_of (codes "6")) (update_task_status parsed_status)
    ∷ []

abbrev new_goal : CreateGoalRequestBody
new_goal = record { title = codes "run"; description = none }

abbrev created_goal : CreateGoalResponseBody
created_goal = record {
  id = some oid_7a;
  title = some (codes "run");
  description = some [];
  user_id = some owner;
}

abbrev goal_creation : Request
goal_creation = request_of clock (http_of (codes "5")) (create_goal oid_7a (ok new_goal))

abbrev all_goals : List Goal
all_goals = as_goal (goal_of oid_1 owner) ∷ as_goal (new_document oid_7a new_goal owner) ∷ []

list_goals-create_goal_example :
    (user_id : UserId) × (acting components goal_creation ≡ some user_id)
    × Memᴰ (as_goal (new_document oid_7a new_goal user_id)) all_goals
unfolding serve serve_all leadertask_userver.Auth.check_auth leadertask_userver.Number.stoll
    leadertask_userver.Views.Limited.limited leadertask_userver.RateLimit.check_rate_limit
    leadertask_userver.Base.bytes_beq leadertask_userver.Base.Int.int_beq
    leadertask_userver.Views.Tasks.Update.handle leadertask_userver.Number.parse_int
    leadertask_userver.Repositories.Goals.get_by_id leadertask_userver.Tests.Goals.parse_oid
    leadertask_userver.Tests.Goals.find_one leadertask_userver.Repositories.Tasks.update_status
    leadertask_userver.Tests.Tasks.update leadertask_userver.Views.Users.Signup.handle
    leadertask_userver.Repositories.Users.create_user leadertask_userver.Tests.Users.insert
    leadertask_userver.Views.Goals.Create.handle leadertask_userver.Repositories.Goals.create_goal
    leadertask_userver.Tests.Goals.insert_one leadertask_userver.Views.Goals.List.handle
    leadertask_userver.Repositories.Goals.get_by_user leadertask_userver.Tests.Goals.find_by_user
    leadertask_userver.Views.Goals.List.copy_goals
list_goals-create_goal_example =
    list_goals-create_goal components clock afterwards (http_of (codes "5")) (http_of (codes "5"))
      oid_7a new_goal between server created_goal all_goals refl refl refl

abbrev task_creation : Request
task_creation = request_of clock (http_of (codes "5")) (create_task (ok new_task))

abbrev later : Server components
later = serve_all components between (serve components task_creation server).1

abbrev two_tasks : List Task
two_tasks =
    record { id = pos 1; goal_id = pos 1; title = codes "write"; status = done }
    ∷ record { id = pos 2; goal_id = pos 1; title = codes "read"; status = todo }
    ∷ []

list_tasks-create_task_example :
    (t : Task) × Memᴰ t two_tasks
    × (t.id ≡ created.id)
    × (t.goal_id ≡ created.goal_id)
    × (t.title ≡ created.title)
unfolding serve serve_all leadertask_userver.Auth.check_auth leadertask_userver.Number.stoll
    leadertask_userver.Views.Limited.limited leadertask_userver.RateLimit.check_rate_limit
    leadertask_userver.Base.bytes_beq leadertask_userver.Base.Int.int_beq
    leadertask_userver.Views.Tasks.Update.handle leadertask_userver.Number.parse_int
    leadertask_userver.Repositories.Goals.get_by_id leadertask_userver.Tests.Goals.parse_oid
    leadertask_userver.Tests.Goals.find_one leadertask_userver.Repositories.Tasks.update_status
    leadertask_userver.Tests.Tasks.update leadertask_userver.Views.Users.Signup.handle
    leadertask_userver.Repositories.Users.create_user leadertask_userver.Tests.Users.insert
    leadertask_userver.Views.Tasks.Create.handle leadertask_userver.Repositories.Tasks.create_task
    leadertask_userver.Tests.Tasks.insert leadertask_userver.Views.Tasks.List.handle
    leadertask_userver.Repositories.Tasks.get_by_goal leadertask_userver.Tests.Tasks.select_by_goal
    leadertask_userver.Views.Tasks.List.copy_tasks
list_tasks-create_task_example =
    list_tasks-create_task components clock afterwards (http_of (codes "5")) (http_of (codes "5"))
      new_task between server later created two_tasks refl refl refl refl refl
