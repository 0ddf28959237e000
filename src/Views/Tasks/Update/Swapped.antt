-- ===== src/Views/Tasks/Update/Swapped.antt =====
-- Which row src/views/tasks/update.cpp changes: it gives the numbers of the goal and of the task to
-- `UpdateStatus` (src/repositories/tasks_repository.cpp) in the other order.
use mathlib.Core.List.Memᴰ
use leadertask_userver.Base.{
  ◌≡◌, ◌≢◌, beq_ne, ok, refl, sym, ◌∙◌, ap, subst, Option, some, List, [], ◌∷◌, map, Memᴰ, filter,
  filter_sound, Bytes, Result, arith,
}
use leadertask_userver.Base.Int.{ℤ, int_eq, int_beq_iff}
use leadertask_userver.Number.{parse_int}
use leadertask_userver.RateLimit.{UserId}
use leadertask_userver.Definitions.{
  Exception, Task, CreateTaskResponseBody, UpdateTaskStatusRequest,
}
use leadertask_userver.Http.{HttpRequest, reply_with, ok_200}
use leadertask_userver.Services.TasksTable.{TasksTable, TaskRow, is_task_of, set_status}
use leadertask_userver.Services.GoalsCollection.{GoalsCollection}
use leadertask_userver.Repositories.Tasks.{as_task, as_created}
use leadertask_userver.Views.Limited.{Clock, State}
use leadertask_userver.Views.Tasks.Stores.{Stores}
use leadertask_userver.Views.Tasks.Update.{handle}
use leadertask_userver.Views.Tasks.Update.Laws.{handle-IsUpdated}

abbrev as_reply : Task → CreateTaskResponseBody
as_reply t = record { id = t.id; goal_id = t.goal_id; title = t.title; status = t.status }

-- The one row that the statement changes, and what it makes of it.
pub updated_row :
    (id goal_id : ℤ) (st : Bytes) (rows : List TaskRow) (task : Task)
    → map as_task (map (set_status id goal_id st) (filter (is_task_of id goal_id) rows)) ≡ task ∷ []
    → (old : TaskRow) × Memᴰ old rows
      × (old.id ≡ id)
      × (old.goal_id ≡ goal_id)
      × Memᴰ (record old { status = st }) (map (set_status id goal_id st) rows)
      × (as_task (record old { status = st }) ≡ task)
updated_row id goal_id st rows task h =
    let there = subst (λ ts. Memᴰ task ts) (sym h) (Memᴰ.head refl) in
    let (r, m, same) = Memᴰ.of_map as_task _ there in
    let (old, i, set) = Memᴰ.of_map (set_status id goal_id st) _ m in
    let (stored, own) = filter_sound (is_task_of id goal_id) old rows i in
    let changed : set_status id goal_id st old ≡ record old { status = st } = rw own refl in
    (
      old,
      stored,
      (int_beq_iff old.id id).0 (ground arith),
      (int_beq_iff old.goal_id goal_id).0 (ground arith),
      subst (λ x. Memᴰ x (map (set_status id goal_id st) rows)) changed
          (Memᴰ.map (set_status id goal_id st) stored),
      ap as_task (sym changed ∙ set) ∙ same,
    )

-- A row of another id keeps its place.
unchanged_row :
    (id goal_id : ℤ) (st : Bytes) (rows : List TaskRow) (r : TaskRow)
    → Memᴰ r rows
    → r.id ≢ id
    → Memᴰ r (map (set_status id goal_id st) rows)
unchanged_row id goal_id st rows r m other =
    let kept : set_status id goal_id st r ≡ r = rw (beq_ne r.id id other) refl in
    subst (λ x. Memᴰ x (map (set_status id goal_id st) rows)) kept
      (Memᴰ.map (set_status id goal_id st) m)

-- If the update replies with a task, the two path arguments are whole numbers and the body was parsed. The row that
-- it changes has the number of the goal as its id and the number of the task as its goal; it is in the table
-- afterwards with the status of the body, and that is the reply. Every row of another id stays as it is: a task
-- whose id is the number that the path has for the task is left alone, unless the two numbers are the same.
pub handle-swapped :
    (table : TasksTable) (collection : GoalsCollection) (clock : Clock) (request : HttpRequest)
    (body : Result Exception UpdateTaskStatusRequest) (context : Option UserId)
    (s : State (Stores table collection)) (resp : CreateTaskResponseBody)
    → (handle table collection clock request body context s).0 ≡ reply_with ok_200 resp
    → (goal_id : ℤ) × (task_id : ℤ) × (b : UpdateTaskStatusRequest) × (parse_int
          (request.get_path_arg "goalId")
        ≡ some goal_id)
      × (parse_int (request.get_path_arg "taskId") ≡ some task_id)
      × (body ≡ ok b)
      × (old : TaskRow) × Memᴰ old (table.primary s.store.tasks)
      × (old.id ≡ goal_id)
      × (old.goal_id ≡ task_id)
      × Memᴰ
          (record old { status = b.status })
          (table.primary (handle table collection clock request body context s).1.store.tasks)
      × (resp ≡ as_created (record old { status = b.status }))
      × ((r : TaskRow)
          → Memᴰ r (table.primary s.store.tasks)
          → r.id ≢ goal_id
          → Memᴰ r
              (table.primary (handle table collection clock request body context s).1.store.tasks))
handle-swapped table collection clock request body context s resp h =
    let (_, _, b, parsed, new) =
      handle-IsUpdated table collection clock request body context s resp h in
    let (old, stored, under_id, in_goal, there, same) =
      updated_row new.goal_id new.task_id b.status _ new.task new.single in
    (
      new.goal_id,
      new.task_id,
      b,
      new.goal_number,
      new.task_number,
      parsed,
      old,
      stored,
      under_id,
      in_goal,
      subst (λ rows. Memᴰ (record old { status = b.status }) rows) (sym new.written) there,
      new.replied ∙ ap as_reply (sym same),
      λ r m other.
          subst (λ rows. Memᴰ r rows) (sym new.written)
            (unchanged_row new.goal_id new.task_id b.status _ r m other),
    )
