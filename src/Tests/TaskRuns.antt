-- ===== src/Tests/TaskRuns.antt =====
-- Requests to the handlers of src/views/tasks, on the services in memory.
use leadertask_userver.Base.{
  ◌≡◌, ◌≢◌, refl, ℕ, Bool, true, false, Option, none, some, List, [], ◌∷◌, ◌++◌, Memᴰ, map, filter,
  Bytes, codes, is_empty, Result, ok, err, arith, inl, inr,
}
use leadertask_userver.Base.Int.{ℤ, pos, int_eq}
use leadertask_userver.Number.{stoll, is_digit}
use leadertask_userver.Number.ObjectId.{IsObjectId}
use leadertask_userver.RateLimit.{UserId}
use leadertask_userver.Definitions.{UpdateTaskStatusRequest}
use leadertask_userver.Repositories.Tasks.{update_status, as_task}
use leadertask_userver.Views.Limited.{Clock, State}
use leadertask_userver.Views.Limited.Rate.{is_value}
use leadertask_userver.Views.Tasks
use leadertask_userver.Views.Tasks.Create
use leadertask_userver.Views.Tasks.Create.Laws
use leadertask_userver.Views.Tasks.Create.Laws.{handle-IsCreated}
use leadertask_userver.Views.Tasks.Create.Unchanged.{handle-unchanged}
use leadertask_userver.Views.Tasks.List.Laws.{IsShown, handle-IsShown, list_goal-collides}
use leadertask_userver.Views.Tasks.Update.Laws.{IsUpdated, handle-IsUpdated, handle-IsObjectId}
use leadertask_userver.Tests.Tasks.{memory_tasks}
use leadertask_userver.Tests.Goals.{memory_goals, all_hex, all_hex_iff}
use leadertask_userver.Tests.World.{
  owner, oid_1, oid_7a, oid_7b, goal_of, start, clock, request_of, new_task, created, parsed_status,
  updated, shown,
}

handle-IsCreated_example :
    (is_empty new_task.title ≡ false)
    × (user_id : UserId) × (some owner ≡ some user_id)
    × Laws.IsCreated memory_tasks memory_goals
        (request_of oid_1 [])
        new_task.title
        user_id
        start.store
        (Create.handle memory_tasks memory_goals clock
          (request_of oid_1 [])
          (ok new_task)
          (some owner)
          start).1.store
        created
unfolding Create.handle leadertask_userver.Views.Limited.limited
    leadertask_userver.RateLimit.check_rate_limit stoll
    leadertask_userver.Repositories.Goals.get_by_id leadertask_userver.Tests.Goals.parse_oid
    leadertask_userver.Tests.Goals.find_one leadertask_userver.Base.bytes_beq
    leadertask_userver.Base.Int.int_beq leadertask_userver.Repositories.Tasks.create_task
    leadertask_userver.Tests.Tasks.insert
handle-IsCreated_example =
    handle-IsCreated memory_tasks memory_goals clock (request_of oid_1 []) new_task (some owner)
      start created refl

-- The goal is that of another user.
handle-unchanged_example :
    (Create.handle memory_tasks memory_goals clock
      (request_of oid_7b [])
      (ok new_task)
      (some owner)
      start).1.store
    ≡ start.store
unfolding Create.handle leadertask_userver.Views.Limited.limited
    leadertask_userver.RateLimit.check_rate_limit stoll
    leadertask_userver.Repositories.Goals.get_by_id leadertask_userver.Tests.Goals.parse_oid
    leadertask_userver.Tests.Goals.find_one leadertask_userver.Base.bytes_beq
    leadertask_userver.Base.Int.int_beq
handle-unchanged_example =
    handle-unchanged memory_tasks memory_goals clock (request_of oid_7b []) (ok new_task)
      (some owner) start refl

handle-IsShown_example :
    (user_id : ℤ) × (some owner ≡ some user_id)
    × IsShown memory_tasks memory_goals (request_of oid_1 []) user_id start.store shown
unfolding Tasks.List.handle leadertask_userver.Views.Limited.limited
    leadertask_userver.RateLimit.check_rate_limit stoll
    leadertask_userver.Repositories.Goals.get_by_id leadertask_userver.Tests.Goals.parse_oid
    leadertask_userver.Tests.Goals.find_one leadertask_userver.Base.bytes_beq
    leadertask_userver.Base.Int.int_beq leadertask_userver.Repositories.Tasks.get_by_goal
    leadertask_userver.Tests.Tasks.select_by_goal leadertask_userver.Views.Tasks.List.copy_tasks
handle-IsShown_example =
    handle-IsShown memory_tasks memory_goals clock (request_of oid_1 []) (some owner) start shown
      refl

handle-IsUpdated_example :
    (user_id : ℤ) × (some owner ≡ some user_id)
    × (b : UpdateTaskStatusRequest) × (parsed_status ≡ ok b)
    × IsUpdated memory_tasks memory_goals
        (request_of oid_1 (codes "1"))
        b.status
        start.store
        (Tasks.Update.handle memory_tasks memory_goals clock
          (request_of oid_1 (codes "1"))
          parsed_status
          (some owner)
          start).1.store
        updated
unfolding Tasks.Update.handle leadertask_userver.Views.Limited.limited
    leadertask_userver.RateLimit.check_rate_limit leadertask_userver.Number.parse_int
    leadertask_userver.Repositories.Goals.get_by_id leadertask_userver.Tests.Goals.parse_oid
    leadertask_userver.Tests.Goals.find_one leadertask_userver.Base.bytes_beq update_status
    leadertask_userver.Tests.Tasks.update leadertask_userver.Base.Int.int_beq
handle-IsUpdated_example =
    handle-IsUpdated memory_tasks memory_goals clock (request_of oid_1 (codes "1")) parsed_status
      (some owner) start updated refl

oid_7a-IsObjectId : IsObjectId oid_7a
unfolding all_hex
oid_7a-IsObjectId = record { size = refl; hex = (all_hex_iff oid_7a).0 refl }

handle-IsObjectId_example :
    (is_value
        (Tasks.Update.handle memory_tasks memory_goals clock
          (request_of oid_7a (codes "1"))
          parsed_status
          (some owner)
          start).0
      ≡ false)
    × ((Tasks.Update.handle memory_tasks memory_goals clock
          (request_of oid_7a (codes "1"))
          parsed_status
          (some owner)
          start).1.store
        ≡ start.store)
handle-IsObjectId_example =
    handle-IsObjectId memory_tasks memory_goals b'7' (codes "a0000000000000000000000") clock
      (request_of oid_7a (codes "1")) parsed_status (some owner) start oid_7a-IsObjectId
      (omega arith) refl

-- The goals of two users, both read as 7.
list_goal-collides_example :
    (Tasks.List.list_goal memory_tasks memory_goals (request_of oid_7a []) owner start.store).0
    ≡ (Tasks.List.list_goal memory_tasks memory_goals (request_of oid_7b []) (pos 6) start.store).0
unfolding Tasks.List.list_goal leadertask_userver.Repositories.Goals.get_by_id
    leadertask_userver.Tests.Goals.parse_oid leadertask_userver.Tests.Goals.find_one
    leadertask_userver.Base.bytes_beq
list_goal-collides_example =
    list_goal-collides memory_tasks memory_goals (codes "7") b'a' b'b'
      (codes "0000000000000000000000") (codes "0000000000000000000000") (request_of oid_7a [])
      (request_of oid_7b []) (goal_of oid_7a owner) (goal_of oid_7b (pos 6)) start.store (refl, tt)
      (λ e. cc e) refl refl refl refl refl refl
