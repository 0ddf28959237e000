-- ===== src/Server/Rates.antt =====
-- The rate limit of each endpoint over histories of the whole server.
pub mod Bounds
use leadertask_userver.Base.{
  ℕ, suc, ◌+◌, ◌-◌, ◌*◌, ◌/◌, ◌≤◌, ◌≡◌, ◌≢◌, refl, sym, ◌∙◌, ap, subst, Bool, true, false, ◌&&◌,
  Option, none, some, List, [], ◌∷◌, if◌then◌else◌, Bool-cases, inl, inr, arith, ok, err, ◌==◌,
}
use leadertask_userver.Base.Int.{int_eq}
use leadertask_userver.RateLimit.{UserId, RateLimits, nanos_per_second}
use leadertask_userver.RateLimit.History.{IsTimed, count_allowed, decide, after}
use leadertask_userver.RateLimit.History
use leadertask_userver.RateLimit.Bounds.{count_allowed-le_rate}
use leadertask_userver.Http.{HttpRequest}
use leadertask_userver.Auth.{AuthCheckResult}
use leadertask_userver.Views.Limited.{Clock}
use leadertask_userver.Views.Limited.Rate.{is_value, is_from, IsTimed-earlier}
use leadertask_userver.Views.Limited.Calls.{IsCalled, no_call, one_call, IsGated-IsCalled}
use leadertask_userver.Views.Gated
use leadertask_userver.Server.Defs.{
  Components, Call, hello, login, signup, search, create_goal, list_goals, create_task,
  update_task_status, list_tasks, Request, Response, rejected, greeting, token, new_user,
  found_users, new_goal, goal_list, new_task, updated_task, task_list, needs_auth, Limits, Data,
  Server, task_stores,
}
use leadertask_userver.Server.Dispatch.{
  serve_login, serve_signup, serve_search, serve_create_goal, serve_list_goals, serve_create_task,
  serve_update_task_status, serve_list_tasks, dispatch, checked, acting, behind_auth, serve,
}

-- The endpoints that have a limit.
pub data Endpoint : Type 0 where
  searches goal_creations goal_lists task_creations status_updates task_lists : Endpoint

abbrev pub limits_at : Endpoint → Limits → RateLimits
limits_at searches l = l.search
limits_at goal_creations l = l.create_goal
limits_at goal_lists l = l.list_goals
limits_at task_creations l = l.create_task
limits_at status_updates l = l.update_task_status
limits_at task_lists l = l.list_tasks

abbrev pub endpoint_of : Call → Option Endpoint
endpoint_of (hello now body) = none
endpoint_of (login body) = none
endpoint_of (signup body) = none
endpoint_of search = some searches
endpoint_of (create_goal oid body) = some goal_creations
endpoint_of list_goals = some goal_lists
endpoint_of (create_task body) = some task_creations
endpoint_of (update_task_status body) = some status_updates
endpoint_of list_tasks = some task_lists

-- The request was answered with a value: the handler has neither thrown nor sent an error.
abbrev pub response_is_value : Response → Bool
response_is_value (rejected result) = false
response_is_value (greeting out) = is_value out
response_is_value (token out) = is_value out
response_is_value (new_user out) = is_value out
response_is_value (found_users out) = is_value out
response_is_value (new_goal out) = is_value out
response_is_value (goal_list out) = is_value out
response_is_value (new_task out) = is_value out
response_is_value (updated_task out) = is_value out
response_is_value (task_list out) = is_value out

module _ (c : Components) (clock : Clock) (http : HttpRequest) (context : Option UserId)
    (s : Server c) where
  -- The limits of an endpoint after a call of another are as before.
  kept :
      (e : Endpoint) (call : Call)
      → endpoint_of call ≢ some e
      → limits_at e (dispatch c clock http context s call).1.limits ≡ limits_at e s.limits
  unfolding dispatch serve_login serve_signup serve_search serve_create_goal serve_list_goals
      serve_create_task serve_update_task_status serve_list_tasks
  kept e (hello now body) h = refl
  kept e (login body) h = refl
  kept e (signup body) h = refl
  kept searches search h = absurd (h refl)
  kept _ search h = refl
  kept goal_creations (create_goal oid body) h = absurd (h refl)
  kept _ (create_goal oid body) h = refl
  kept goal_lists list_goals h = absurd (h refl)
  kept _ list_goals h = refl
  kept task_creations (create_task body) h = absurd (h refl)
  kept _ (create_task body) h = refl
  kept status_updates (update_task_status body) h = absurd (h refl)
  kept _ (update_task_status body) h = refl
  kept task_lists list_tasks h = absurd (h refl)
  kept _ list_tasks h = refl

  -- A call of the endpoint itself.
  abbrev IsCalledAt : Endpoint → Response × Server c → Type 0
  IsCalledAt e (answer, s') =
      IsCalled clock context (limits_at e s.limits) (response_is_value answer)
        (limits_at e s'.limits)

  called :
      (e : Endpoint) (call : Call)
      → endpoint_of call ≡ some e
      → IsCalledAt e (dispatch c clock http context s call)
  unfolding dispatch serve_search serve_create_goal serve_list_goals serve_create_task
      serve_update_task_status serve_list_tasks
  called e (hello now body) h = cc h
  called e (login body) h = cc h
  called e (signup body) h = cc h
  called searches search h =
      IsGated-IsCalled clock context _ _ (Gated.search_users-IsGated c.users clock context http _)
  called goal_creations (create_goal oid body) h =
      IsGated-IsCalled clock context _ _
        (Gated.create_goal-IsGated c.goals clock context oid body _)
  called goal_lists list_goals h =
      IsGated-IsCalled clock context _ _ (Gated.list_goals-IsGated c.goals clock context _)
  called task_creations (create_task body) h =
      IsGated-IsCalled clock context _ _
        (Gated.create_task-IsGated c.tasks c.goals clock context http body _)
  called status_updates (update_task_status body) h =
      IsGated-IsCalled clock context _ _
        (Gated.update_task-IsGated c.tasks c.goals clock context http body _)
  called task_lists list_tasks h =
      IsGated-IsCalled clock context _ _
        (Gated.list_tasks-IsGated c.tasks c.goals clock context http _)
  called _ _ h = cc h
