-- ===== src/Server/Lasting.antt =====
-- What one request made is seen by a later one, whatever requests come between.
use mathlib.Core.List.Memᴰ
use leadertask_userver.Base.{
  ◌≡◌, refl, sym, ◌∙◌, ap, subst, Bool, true, false, some, List, [], ◌∷◌, ◌++◌, Memᴰ, Bool-cases,
  inl, inr, Bytes, ok, some-injective,
}
use leadertask_userver.Base.Int.{ℤ}
use leadertask_userver.Number.{stoll, value_of}
use leadertask_userver.RateLimit.{UserId}
use leadertask_userver.Definitions.{
  Goal, CreateGoalRequestBody, CreateGoalResponseBody, Task, CreateTaskRequestBody,
  CreateTaskResponseBody,
}
use leadertask_userver.Http.{HttpRequest, reply, reply_with, created_201}
use leadertask_userver.Services.TasksTable.{TaskRow}
use leadertask_userver.Repositories.Goals.{as_goal}
use leadertask_userver.Repositories.Tasks.{as_task, as_created}
use leadertask_userver.Views.Limited.{Clock}
use leadertask_userver.Views.Goals
use leadertask_userver.Views.Goals.Laws.{new_document, create-IsCreated, IsListOf, list-IsListOf}
use leadertask_userver.Views.Tasks
use leadertask_userver.Views.Tasks.Create.Laws.{handle-IsCreated}
use leadertask_userver.Views.Tasks.List.Laws.{IsShown, handle-IsShown}
use leadertask_userver.Server.Defs.{
  Components, Call, create_goal, list_goals, create_task, list_tasks, Request, Response, rejected,
  new_goal, goal_list, new_task, task_list, needs_auth, Server, task_stores,
}
use leadertask_userver.Server.Dispatch.{
  serve_create_goal, serve_list_goals, serve_create_task, serve_list_tasks, dispatch, checked,
  acting, behind_auth, serve, serve_all,
}
use leadertask_userver.Server.Growth.{fixed_part, serve_all-IsGrown}

abbrev is_rejected : Response → Bool
is_rejected (rejected result) = true
is_rejected _ = false

abbrev pub request_of : Clock → HttpRequest → Call → Request
request_of clock http call = record { clock = clock; http = http; call = call }

module _ (c : Components) where
  -- A request that is not rejected is answered by its handler, for the user of its token.
  serve_handled :
      (r : Request) (s : Server c)
      → is_rejected (serve c r s).0 ≡ false
      → serve c r s ≡ dispatch c r.clock r.http (acting c r) s r.call
  unfolding serve behind_auth
  serve_handled r s h = elim (Bool-cases (needs_auth r.call)) [
    | inl closed ↦ elim (Bool-cases (c.continues (checked c r.http).0)) [
      | inl goes ↦ rw (closed, goes) refl
      | inr stops ↦ cc (rw (closed, stops) at h)
    ]
    | inr free ↦ rw free refl
  ]

  module _ (clock : Clock) (http : HttpRequest) (s : Server c) where
    goal_added :
        (oid : Bytes) (body : CreateGoalRequestBody) (resp : CreateGoalResponseBody)
        → (serve c (request_of clock http (create_goal oid (ok body))) s).0
          ≡ new_goal (reply_with created_201 resp)
        → (user_id : UserId) × (acting c (request_of clock http (create_goal oid (ok body)))
            ≡ some user_id)
          × (c.goals.documents
                (serve c (request_of clock http (create_goal oid (ok body))) s).1.stored.goals
              ≡ c.goals.documents s.stored.goals ++ new_document oid body user_id ∷ [])
    unfolding dispatch serve_create_goal
    goal_added oid body resp h =
        let r = request_of clock http (create_goal oid (ok body)) in
        let e = serve_handled r s (ap is_rejected h) in
        let out : (Goals.Create.handle c.goals clock oid (ok body) (acting c r)
              (record { limits = s.limits.create_goal; store = s.stored.goals })).0
            ≡ reply_with created_201 resp =
          cc (ap (λ (q : Response × Server c). q.0) e, h) in
        let (user_id, known, made) =
          create-IsCreated c.goals clock oid body (acting c r) _ resp out in
        (
          user_id,
          known,
          ap (λ (q : Response × Server c). c.goals.documents q.1.stored.goals) e ∙ made.documents,
        )

    goals_listed :
        (goals : List Goal)
        → (serve c (request_of clock http list_goals) s).0 ≡ goal_list (reply goals)
        → (user_id : UserId) × (acting c (request_of clock http list_goals) ≡ some user_id)
          × IsListOf c.goals user_id s.stored.goals goals
    unfolding dispatch serve_list_goals
    goals_listed goals h =
        let r = request_of clock http list_goals in
        let e = serve_handled r s (ap is_rejected h) in
        let out : (Goals.List.handle c.goals clock (acting c r)
              (record { limits = s.limits.list_goals; store = s.stored.goals })).0
            ≡ reply goals =
          cc (ap (λ (q : Response × Server c). q.0) e, h) in
        list-IsListOf c.goals clock (acting c r) _ goals out

    task_added :
        (body : CreateTaskRequestBody) (resp : CreateTaskResponseBody)
        → (serve c (request_of clock http (create_task (ok body))) s).0
          ≡ new_task (reply_with created_201 resp)
        → (row : TaskRow) × (c.tasks.primary
              (serve c (request_of clock http (create_task (ok body))) s).1.stored.tasks
            ≡ c.tasks.primary s.stored.tasks ++ row ∷ [])
          × (value_of (stoll (http.get_path_arg "goalId")) ≡ some row.goal_id)
          × (resp ≡ as_created row)
    unfolding dispatch serve_create_task
    task_added body resp h =
        let r = request_of clock http (create_task (ok body)) in
        let e = serve_handled r s (ap is_rejected h) in
        let out : (Tasks.Create.handle c.tasks c.goals clock http (ok body) (acting c r)
              (record { limits = s.limits.create_task; store = task_stores c s.stored })).0
            ≡ reply_with created_201 resp =
          cc (ap (λ (q : Response × Server c). q.0) e, h) in
        let (_, _, _, made) =
          handle-IsCreated c.tasks c.goals clock http body (acting c r) _ resp out in
        (
          made.row,
          ap (λ (q : Response × Server c). c.tasks.primary q.1.stored.tasks) e ∙ made.inserted,
          made.number ∙ ap (λ i. some i) (sym made.in_goal),
          made.replied,
        )

    tasks_listed :
        (tasks : List Task)
        → (serve c (request_of clock http list_tasks) s).0 ≡ task_list (reply tasks)
        → (user_id : UserId) × IsShown c.tasks c.goals http user_id (task_stores c s.stored) tasks
    unfolding dispatch serve_list_tasks
    tasks_listed tasks h =
        let r = request_of clock http list_tasks in
        let e = serve_handled r s (ap is_rejected h) in
        let out : (Tasks.List.handle c.tasks c.goals clock http (acting c r)
              (record { limits = s.limits.list_tasks; store = task_stores c s.stored })).0
            ≡ reply tasks =
          cc (ap (λ (q : Response × Server c). q.0) e, h) in
        let (user_id, _, shown) =
          handle-IsShown c.tasks c.goals clock http (acting c r) _ tasks out in
        (user_id, shown)

  -- A goal that the server has created is in every list of goals that it later shows to the same user, under its
  -- id, with the title of the body and its description, or an empty one, whatever requests of whatever users come
  -- between.
  pub list_goals-create_goal :
      (clock clock' : Clock) (http http' : HttpRequest) (oid : Bytes) (body : CreateGoalRequestBody)
      (between : List Request) (s : Server c) (resp : CreateGoalResponseBody) (goals : List Goal)
      → (serve c (request_of clock http (create_goal oid (ok body))) s).0
        ≡ new_goal (reply_with created_201 resp)
      → (serve c
          (request_of clock' http' list_goals)
          (serve_all c between (serve c (request_of clock http (create_goal oid (ok body))) s).1)).0
        ≡ goal_list (reply goals)
      → acting c (request_of clock' http' list_goals)
        ≡ acting c (request_of clock http (create_goal oid (ok body)))
      → (user_id : UserId) × (acting c (request_of clock http (create_goal oid (ok body)))
          ≡ some user_id)
        × Memᴰ (as_goal (new_document oid body user_id)) goals
  list_goals-create_goal clock clock' http http' oid body between s resp goals created listed
        same_user =
      let added = (serve c (request_of clock http (create_goal oid (ok body))) s).1 in
      let (user_id, known, now_there) = goal_added clock http s oid body resp created in
      let (lister, known', shown) =
        goals_listed clock' http' (serve_all c between added) goals listed in
      let (more, grown) = (serve_all-IsGrown c between added).goals in
      let d = new_document oid body user_id in
      let stored : Memᴰ d (c.goals.documents (serve_all c between added).stored.goals) =
        subst (λ ds. Memᴰ d ds) (sym (grown ∙ ap (λ ds. ds ++ more) now_there))
          (Memᴰ.append_left more
            (Memᴰ.append_right (c.goals.documents s.stored.goals) (Memᴰ.head refl))) in
      let own = some-injective user_id lister (sym known ∙ sym same_user ∙ known') in
      (
        user_id,
        known,
        subst (λ gs. Memᴰ (as_goal d) gs) (sym shown.shown)
            (Memᴰ.map as_goal ((shown.exact d).1 (stored, own))),
      )

  -- A row that was there is there later, but for its status.
  row_lasts :
      (between : List Request) (s : Server c) (row : TaskRow)
      → Memᴰ row (c.tasks.primary s.stored.tasks)
      → (later : TaskRow) × Memᴰ later (c.tasks.primary (serve_all c between s).stored.tasks)
        × (fixed_part row ≡ fixed_part later)
  row_lasts between s row m =
      let (more, grown) = (serve_all-IsGrown c between s).tasks in
      let there =
        subst (λ l. Memᴰ (fixed_part row) l) (sym grown)
          (Memᴰ.append_left more (Memᴰ.map fixed_part m)) in
      let (later, i, same) = Memᴰ.of_map fixed_part _ there in (later, i, sym same)

  -- A task that the server has created is in every list of tasks that it later shows for a path of the same
  -- number, under its id and with its goal and its title, whatever requests of whatever users come between, if the
  -- replica has then caught up with the master.
  pub list_tasks-create_task :
      (clock clock' : Clock) (http http' : HttpRequest) (body : CreateTaskRequestBody)
      (between : List Request) (s s' : Server c) (resp : CreateTaskResponseBody) (tasks : List Task)
      → (serve c (request_of clock http (create_task (ok body))) s).0
        ≡ new_task (reply_with created_201 resp)
      → s' ≡ serve_all c between (serve c (request_of clock http (create_task (ok body))) s).1
      → (serve c (request_of clock' http' list_tasks) s').0 ≡ task_list (reply tasks)
      → value_of (stoll (http'.get_path_arg "goalId"))
        ≡ value_of (stoll (http.get_path_arg "goalId"))
      → c.tasks.replica s'.stored.tasks ≡ c.tasks.primary s'.stored.tasks
      → (t : Task) × Memᴰ t tasks
        × (t.id ≡ resp.id)
        × (t.goal_id ≡ resp.goal_id)
        × (t.title ≡ resp.title)
  list_tasks-create_task clock clock' http http' body between s s' resp tasks created kept listed
        numbered caught_up =
      let added = (serve c (request_of clock http (create_task (ok body))) s).1 in
      let (row, now_there, number, replied) = task_added clock http s body resp created in
      let (user_id, shown) = tasks_listed clock' http' s' tasks listed in
      let (later, stored, same) = row_lasts between added row (
        subst (λ rows. Memᴰ row rows) (sym now_there)
          (Memᴰ.append_right (c.tasks.primary s.stored.tasks) (Memᴰ.head refl))) in
      let in_goal : later.goal_id ≡ shown.goal_id =
        sym (ap (λ (p : ℤ × ℤ × Bytes). p.1) same)
        ∙ some-injective row.goal_id shown.goal_id (sym number ∙ sym numbered ∙ shown.number) in
      let read : Memᴰ later (c.tasks.replica s'.stored.tasks) =
        subst (λ rows. Memᴰ later rows)
          (sym (caught_up ∙ ap (λ (v : Server c). c.tasks.primary v.stored.tasks) kept)) stored in
      (
        as_task later,
        subst (λ ts. Memᴰ (as_task later) ts) (sym shown.shown)
            (Memᴰ.map as_task ((shown.read later).1 (read, in_goal))),
        sym (ap (λ (p : ℤ × ℤ × Bytes). p.0) same)
            ∙ sym (ap (λ (r : CreateTaskResponseBody). r.id) replied),
        sym (ap (λ (p : ℤ × ℤ × Bytes). p.1) same)
            ∙ sym (ap (λ (r : CreateTaskResponseBody). r.goal_id) replied),
        sym (ap (λ (p : ℤ × ℤ × Bytes). p.2) same)
            ∙ sym (ap (λ (r : CreateTaskResponseBody). r.title) replied),
      )
