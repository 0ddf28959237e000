-- ===== src/Server/Dispatch.antt =====
-- The handlers with the repositories that their constructors find (the constructors in src/views, over the
-- components in src/repositories), and the check before them (src/auth/jwt_auth_factory.cpp).
use leadertask_userver.Base.{Option, none, List, [], ◌∷◌, if◌then◌else◌, Bytes, Result}
use leadertask_userver.RateLimit.{UserId}
use leadertask_userver.Definitions.{
  Exception, CreateGoalRequestBody, CreateTaskRequestBody, UpdateTaskStatusRequest,
  CreateUserRequestBody, LoginRequestBody,
}
use leadertask_userver.Http.{HttpRequest}
use leadertask_userver.Auth.{AuthCheckResult, check_auth}
use leadertask_userver.Views.Limited.{Clock}
use leadertask_userver.Views.Tasks
use leadertask_userver.Views.Goals
use leadertask_userver.Views.Users
use leadertask_userver.Views.Hello
use leadertask_userver.Server.Defs.{
  Components, Call, hello, login, signup, search, create_goal, list_goals, create_task,
  update_task_status, list_tasks, Request, Response, rejected, greeting, token, new_user,
  found_users, new_goal, goal_list, new_task, updated_task, task_list, needs_auth, Server,
  task_stores, with_task_stores,
}

module _ (c : Components) (clock : Clock) (http : HttpRequest) (context : Option UserId)
    (s : Server c) where
  -- `users::Login`, with the users and the secret.
  unfoldable pub serve_login : Result Exception LoginRequestBody → Response × Server c
  serve_login body =
      (token (Users.Login.handle c.users c.tokens c.login_secret body s.stored.users), s)

  -- `users::Signup`, with the users.
  unfoldable pub serve_signup : Result Exception CreateUserRequestBody → Response × Server c
  serve_signup body =
      let (out, db) = Users.Signup.handle c.users body s.stored.users in
      (new_user out, record s { stored = record s.stored { users = db } })

  -- `users::Search`, with the users.
  unfoldable pub serve_search : Response × Server c
  serve_search =
      let (out, st) =
        Users.Search.handle c.users clock http context
          (record { limits = s.limits.search; store = s.stored.users }) in
      (
        found_users out,
        record {
          limits = record s.limits { search = st.limits };
          stored = record s.stored { users = st.store };
        },
      )

  -- `goals::Create`, with the goals.
  unfoldable pub serve_create_goal :
      Bytes → Result Exception CreateGoalRequestBody → Response × Server c
  serve_create_goal oid body =
      let (out, st) =
        Goals.Create.handle c.goals clock oid body context
          (record { limits = s.limits.create_goal; store = s.stored.goals }) in
      (
        new_goal out,
        record {
          limits = record s.limits { create_goal = st.limits };
          stored = record s.stored { goals = st.store };
        },
      )

  -- `goals::List`, with the goals.
  unfoldable pub serve_list_goals : Response × Server c
  serve_list_goals =
      let (out, st) =
        Goals.List.handle c.goals clock context
          (record { limits = s.limits.list_goals; store = s.stored.goals }) in
      (
        goal_list out,
        record {
          limits = record s.limits { list_goals = st.limits };
          stored = record s.stored { goals = st.store };
        },
      )

  -- `tasks::Create`, with the tasks and the goals.
  unfoldable pub serve_create_task : Result Exception CreateTaskRequestBody → Response × Server c
  serve_create_task body =
      let (out, st) =
        Tasks.Create.handle c.tasks c.goals clock http body context
          (record { limits = s.limits.create_task; store = task_stores c s.stored }) in
      (
        new_task out,
        record {
          limits = record s.limits { create_task = st.limits };
          stored = with_task_stores c s.stored st.store;
        },
      )

  -- `tasks::UpdateTaskStatus`, with the goals and the tasks.
  unfoldable pub serve_update_task_status :
      Result Exception UpdateTaskStatusRequest → Response × Server c
  serve_update_task_status body =
      let (out, st) =
        Tasks.Update.handle c.tasks c.goals clock http body context
          (record { limits = s.limits.update_task_status; store = task_stores c s.stored }) in
      (
        updated_task out,
        record {
          limits = record s.limits { update_task_status = st.limits };
          stored = with_task_stores c s.stored st.store;
        },
      )

  -- `tasks::ListTasks`, with the tasks and the goals.
  unfoldable pub serve_list_tasks : Response × Server c
  serve_list_tasks =
      let (out, st) =
        Tasks.List.handle c.tasks c.goals clock http context
          (record { limits = s.limits.list_tasks; store = task_stores c s.stored }) in
      (
        task_list out,
        record {
          limits = record s.limits { list_tasks = st.limits };
          stored = with_task_stores c s.stored st.store;
        },
      )

  -- The handler of a call.
  unfoldable pub dispatch : Call → Response × Server c
  unfolding serve_login serve_signup serve_search serve_create_goal serve_list_goals
      serve_create_task serve_update_task_status serve_list_tasks
  dispatch (hello now body) = (greeting (Hello.handle now http body), s)
  dispatch (login body) = serve_login body
  dispatch (signup body) = serve_signup body
  dispatch search = serve_search
  dispatch (create_goal oid body) = serve_create_goal oid body
  dispatch list_goals = serve_list_goals
  dispatch (create_task body) = serve_create_task body
  dispatch (update_task_status body) = serve_update_task_status body
  dispatch list_tasks = serve_list_tasks

module _ (c : Components) where
  -- The answer of the checker of the component, whose secret is that of its setting.
  abbrev pub checked : HttpRequest → AuthCheckResult × Option UserId
  checked http = check_auth c.tokens c.checker_secret (http.get_header "Authorization")

  -- A handler behind the checker, `MakeAuthChecker`, is called with the user that it set, if the framework goes
  -- on after its answer.
  unfoldable pub behind_auth :
      Request → AuthCheckResult × Option UserId → Server c → Response × Server c
  unfolding dispatch
  behind_auth r (result, context) s =
      let answer = dispatch c r.clock r.http context s r.call in
      if c.continues result then answer else (rejected result, s)

  -- A request from its arrival to the answer.
  unfoldable pub serve : Request → Server c → Response × Server c
  unfolding behind_auth needs_auth
  serve r s =
      let open_answer = dispatch c r.clock r.http none s r.call in
      let checked_answer = behind_auth r (checked r.http) s in
      if needs_auth r.call then checked_answer else open_answer

  -- The user for whom a request is served, if it has one.
  abbrev pub acting : Request → Option UserId
  acting r = if needs_auth r.call then (checked r.http).1 else none

  -- The server after a sequence of requests.
  unfoldable pub serve_all : List Request → Server c → Server c
  unfolding serve
  serve_all [] s = s
  serve_all (r ∷ rs) s = serve_all rs (serve r s).1
