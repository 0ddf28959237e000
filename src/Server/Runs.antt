-- ===== src/Server/Runs.antt =====
-- The server refines the specification, request by request and over sequences of requests.
use leadertask_userver.Base.{◌&&◌, is_empty, Option, none, List, [], ◌∷◌, Bool-cases, inl, inr}
use leadertask_userver.RateLimit.{UserId}
use leadertask_userver.Http.{HttpRequest}
use leadertask_userver.Views.Limited.{Clock}
use leadertask_userver.Views.Limited.Cases.{limited_takes}
use leadertask_userver.Views.Tasks
use leadertask_userver.Views.Goals
use leadertask_userver.Views.Users
use leadertask_userver.Server.Defs.{
  Components, Call, hello, login, signup, search, create_goal, list_goals, create_task,
  update_task_status, list_tasks, Request, needs_auth, Data, Server, task_stores,
}
use leadertask_userver.Server.Dispatch.{
  serve_login, serve_signup, serve_search, serve_create_goal, serve_list_goals, serve_create_task,
  serve_update_task_status, serve_list_tasks, dispatch, checked, behind_auth, serve, serve_all,
}
use leadertask_userver.Server.Steps.{snapshot, idle, RequestStep, Reach, start, next}
use leadertask_userver.Server.Refines.{
  Takes, signup-Step, create_goal-Step, create_task-Step, update_task_status-Step,
}

module _ (c : Components) where
  searched :
      (http : HttpRequest) (user_id : UserId) (context : Option UserId) (d : Data c)
      → Takes c d context http search
          (record d { users = (Users.Search.search_users c.users http user_id d.users).1 })
  unfolding Users.Search.search_users
  searched http user_id context d =
      elim (Bool-cases (
        is_empty (http.get_arg "login")
        && (is_empty (http.get_arg "firstNameMask") && is_empty (http.get_arg "lastNameMask")))) [
          | inl blank ↦ rw blank idle
          | inr filtered ↦ rw filtered idle
        ]

  search-Step :
      (clock : Clock) (http : HttpRequest) (context : Option UserId) (s : Server c)
      → Takes c s.stored context http search (serve_search c clock http context s).1.stored
  unfolding serve_search Users.Search.handle
  search-Step clock http context s =
      limited_takes Users.Search.check_rate_limit "user_id not foundtoken" clock
        (Users.Search.search_users c.users http)
        (record { limits = s.limits.search; store = s.stored.users }) context
        (λ users. Takes c s.stored context http search (record s.stored { users = users }))
        (λ user_id known. searched http user_id context s.stored) idle

  list_goals-Step :
      (clock : Clock) (http : HttpRequest) (context : Option UserId) (s : Server c)
      → Takes c s.stored context http list_goals (serve_list_goals c clock http context s).1.stored
  unfolding serve_list_goals Goals.List.handle Goals.List.list_of_user
  list_goals-Step clock http context s =
      limited_takes Goals.List.check_rate_limit "user_id not found in token" clock
        (Goals.List.list_of_user c.goals)
        (record { limits = s.limits.list_goals; store = s.stored.goals }) context
        (λ goals. Takes c s.stored context http list_goals (record s.stored { goals = goals }))
        (λ user_id known. idle) idle

  list_tasks-Step :
      (clock : Clock) (http : HttpRequest) (context : Option UserId) (s : Server c)
      → Takes c s.stored context http list_tasks (serve_list_tasks c clock http context s).1.stored
  unfolding serve_list_tasks Tasks.List.handle Tasks.List.list_goal
  list_tasks-Step clock http context s =
      limited_takes Tasks.List.check_rate_limit "user_id not found in token" clock
        (Tasks.List.list_goal c.tasks c.goals http)
        (record { limits = s.limits.list_tasks; store = task_stores c s.stored }) context
        (λ st.
          Takes c s.stored context http list_tasks
            (record s.stored { tasks = st.tasks; goals = st.goals }))
        (λ user_id known. idle) idle

  dispatch-Step :
      (clock : Clock) (http : HttpRequest) (context : Option UserId) (s : Server c) (call : Call)
      → Takes c s.stored context http call (dispatch c clock http context s call).1.stored
  unfolding dispatch serve_login serve_signup serve_create_goal serve_create_task
      serve_update_task_status
  dispatch-Step clock http context s (hello now body) = idle
  dispatch-Step clock http context s (login body) = idle
  dispatch-Step clock http context s (signup body) = signup-Step c s.stored context http body
  dispatch-Step clock http context s search = search-Step clock http context s
  dispatch-Step clock http context s (create_goal oid body) =
      create_goal-Step c s.stored context http clock s.limits.create_goal oid body
  dispatch-Step clock http context s list_goals = list_goals-Step clock http context s
  dispatch-Step clock http context s (create_task body) =
      create_task-Step c s.stored context http clock s.limits.create_task body
  dispatch-Step clock http context s (update_task_status body) =
      update_task_status-Step c s.stored context http clock s.limits.update_task_status body
  dispatch-Step clock http context s list_tasks = list_tasks-Step clock http context s

  -- Every request takes at most one step of the specification, for the user that the checker finds in it, whatever
  -- it asks for, and whether it is answered, refused or fails: a sign-up adds a user with the values of its body; a
  -- creation of a goal adds a goal of the acting user with the values of its body; a creation of a task adds a task
  -- with the title of its body and the status `todo`, under the number that `std::stoll` makes of the path, while
  -- the path names a stored goal of the acting user; an update sets a status that is one of the three, in the rows
  -- whose id is the number that the path has for the goal and whose goal is that for the task, while the path names
  -- a stored goal. What is added has an id, a login or an object id that is new. No other request changes a row.
  pub serve-Step :
      (r : Request) (s : Server c)
      → RequestStep c r (snapshot c s.stored) (snapshot c (serve c r s).1.stored)
  unfolding serve behind_auth
  serve-Step r s = elim (Bool-cases (needs_auth r.call)) [
    | inl closed ↦ elim (Bool-cases (c.continues (checked c r.http).0)) [
      | inl good ↦ rw (closed, good) (dispatch-Step r.clock r.http (checked c r.http).1 s r.call)
      | inr bad ↦ rw (closed, bad) idle
    ]
    | inr free ↦ rw free (dispatch-Step r.clock r.http none s r.call)
  ]

  -- A sequence of requests leads to data that the specification reaches by their steps.
  pub serve_all-Reach :
      (rs : List Request) (s : Server c)
      → Reach c rs (snapshot c s.stored) (snapshot c (serve_all c rs s).stored)
  unfolding serve_all
  serve_all-Reach [] s = start
  serve_all-Reach (r ∷ rs) s = next (serve-Step r s) (serve_all-Reach rs (serve c r s).1)
