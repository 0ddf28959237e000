-- ===== src/Views/Tasks/Visible.antt =====
-- What src/views/tasks/list.cpp shows of a task that create.cpp made or that update.cpp changed.
use mathlib.Core.List.Memᴰ
use leadertask_userver.Base.{
  ◌≡◌, refl, sym, ◌∙◌, ap, subst, Option, some, List, Memᴰ, ok, ok-injective, some-injective,
}
use leadertask_userver.Base.Int.{ℤ, int_eq}
use leadertask_userver.Number.{stoll, value_of, parse_int}
use leadertask_userver.RateLimit.{UserId}
use leadertask_userver.Definitions.{
  Task, CreateTaskRequestBody, CreateTaskResponseBody, UpdateTaskStatusRequest,
}
use leadertask_userver.Http.{HttpRequest, reply, reply_with, created_201, ok_200}
use leadertask_userver.Services.TasksTable.{TasksTable, TaskRow}
use leadertask_userver.Services.GoalsCollection.{GoalsCollection}
use leadertask_userver.Repositories.Tasks.{as_task}
use leadertask_userver.Views.Limited.{Clock, State}
use leadertask_userver.Views.Tasks.Stores.{Stores}
use leadertask_userver.Views.Tasks.Create
use leadertask_userver.Views.Tasks.Create.Laws.{handle-IsCreated}
use leadertask_userver.Views.Tasks.List
use leadertask_userver.Views.Tasks.List.Laws.{IsShown, handle-IsShown}
use leadertask_userver.Views.Tasks.Update
use leadertask_userver.Views.Tasks.Update.Swapped.{handle-swapped}

-- The body of a reply as the item of a list.
abbrev pub as_item : CreateTaskResponseBody → Task
as_item b = record { id = b.id; goal_id = b.goal_id; title = b.title; status = b.status }

module _ (table : TasksTable) (collection : GoalsCollection) where
  -- A row of the replica under the number of the path is in the list that is shown.
  row-IsShown :
      (request : HttpRequest) (user_id : UserId) (s : Stores table collection) (tasks : List Task)
      (goal_id : ℤ) (row : TaskRow)
      → IsShown table collection request user_id s tasks
      → value_of (stoll (request.get_path_arg "goalId")) ≡ some goal_id
      → Memᴰ row (table.replica s.tasks)
      → row.goal_id ≡ goal_id
      → Memᴰ (as_task row) tasks
  row-IsShown request user_id s tasks goal_id row shown number stored own =
      let same = some-injective goal_id shown.goal_id (sym number ∙ shown.number) in
      subst (λ ts. Memᴰ (as_task row) ts) (sym shown.shown)
        (Memᴰ.map as_task ((shown.read row).1 (stored, own ∙ same)))

  -- A task that was created is in every list that is shown for the same path, if the store is still the one
  -- that the creation left and the replica has caught up with the master.
  pub list_tasks-create :
      (clock clock' : Clock) (request : HttpRequest) (body : CreateTaskRequestBody)
      (context context' : Option UserId) (s s' : State (Stores table collection))
      (resp : CreateTaskResponseBody) (tasks : List Task)
      → (Create.handle table collection clock request (ok body) context s).0
        ≡ reply_with created_201 resp
      → s'.store ≡ (Create.handle table collection clock request (ok body) context s).1.store
      → table.replica s'.store.tasks ≡ table.primary s'.store.tasks
      → (List.handle table collection clock' request context' s').0 ≡ reply tasks
      → Memᴰ (as_item resp) tasks
  list_tasks-create clock clock' request body context context' s s' resp tasks made kept caught_up
        listed =
      let (_, _, _, new) =
        handle-IsCreated table collection clock request body context s resp made in
      let (user_id, _, shown) =
        handle-IsShown table collection clock' request context' s' tasks listed in
      let there : Memᴰ new.row (table.replica s'.store.tasks) =
        subst (λ rows. Memᴰ new.row rows)
          (sym (
            caught_up
            ∙ ap (λ (st : Stores table collection). table.primary st.tasks) kept
            ∙ new.inserted))
          (Memᴰ.append_right (table.primary s.store.tasks) (Memᴰ.head refl)) in
      subst (λ r. Memᴰ (as_item r) tasks) (sym new.replied)
        (row-IsShown request user_id s'.store tasks new.goal_id new.row shown new.number there
          new.in_goal)

  -- If the update replies with a task, the reply has the status of its body, and it is in every list that is shown
  -- for a path whose goal has the number that the path of the update has for its task, if the store is still the one
  -- that the update left and the replica has caught up with the master.
  pub list_tasks-update :
      (clock clock' : Clock) (request request' : HttpRequest) (body : UpdateTaskStatusRequest)
      (context context' : Option UserId) (s s' : State (Stores table collection))
      (resp : CreateTaskResponseBody) (tasks : List Task)
      → value_of (stoll (request'.get_path_arg "goalId"))
        ≡ parse_int (request.get_path_arg "taskId")
      → (Update.handle table collection clock request (ok body) context s).0
        ≡ reply_with ok_200 resp
      → s'.store ≡ (Update.handle table collection clock request (ok body) context s).1.store
      → table.replica s'.store.tasks ≡ table.primary s'.store.tasks
      → (List.handle table collection clock' request' context' s').0 ≡ reply tasks
      → (resp.status ≡ body.status) × Memᴰ (as_item resp) tasks
  list_tasks-update clock clock' request request' body context context' s s' resp tasks numbered
        made kept caught_up listed =
      let (_, task_id, b, _, number, parsed, old, _, _, in_goal, there, replied, _) =
        handle-swapped table collection clock request (ok body) context s resp made in
      let (user_id, _, shown) =
        handle-IsShown table collection clock' request' context' s' tasks listed in
      let item =
        row-IsShown request' user_id s'.store tasks task_id (record old { status = b.status }) shown
          (numbered ∙ number)
          (subst (λ rows. Memᴰ (record old { status = b.status }) rows)
            (sym (caught_up ∙ ap (λ (st : Stores table collection). table.primary st.tasks) kept))
            there)
          in_goal in
      (
        ap (λ (r : CreateTaskResponseBody). r.status) replied
            ∙ ap (λ (q : UpdateTaskStatusRequest). q.status)
                (ok-injective (ok body) b body parsed refl),
        subst (λ r. Memᴰ (as_item r) tasks) (sym replied) item,
      )
