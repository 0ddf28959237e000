-- ===== src/Views/Goals/Create.antt =====
-- The handler of src/views/goals/create.cpp.
use leadertask_userver.Base.{Option, some, if◌then◌else◌, Bytes, is_empty, Result, ok, err}
use leadertask_userver.RateLimit
use leadertask_userver.RateLimit.{UserId}
use leadertask_userver.Definitions.{Exception, CreateGoalRequestBody, CreateGoalResponseBody}
use leadertask_userver.Http.{Outcome, fail, reply_with, bad_request_400, created_201}
use leadertask_userver.Services.GoalsCollection.{GoalsCollection}
use leadertask_userver.Repositories
use leadertask_userver.Repositories.Goals.{value_or_empty}
use leadertask_userver.Views.Limited.{Clock, State, Limiter, limited}

-- `CheckRateLimit` of this file.
abbrev pub check_rate_limit : Limiter
check_rate_limit = RateLimit.check_rate_limit

abbrev pub respond_or_throw :
    Result Exception CreateGoalResponseBody → Outcome CreateGoalResponseBody
respond_or_throw (err e) = err e
respond_or_throw (ok goal) = reply_with created_201 (record {
  id = goal.id;
  title = goal.title;
  description = goal.description;
  user_id = goal.user_id;
})

module _ (collection : GoalsCollection) where
  -- The handler behind the limit; `oid` is the new id that the repository makes. A description that
  -- is not given is passed on as an empty text.
  unfoldable pub insert_goal :
      Bytes
      → CreateGoalRequestBody
      → UserId
      → collection.Coll
      → Outcome CreateGoalResponseBody × collection.Coll
  insert_goal oid body user_id c =
      let (goal, c') =
        Repositories.Goals.create_goal collection oid user_id body.title
          (some (value_or_empty body.description)) c in
      (respond_or_throw goal, c')

  -- `Create::HandleRequestJsonThrow`; `body` is the outcome of `As<CreateGoalRequestBody>()`.
  unfoldable pub handle :
      Clock
      → Bytes
      → Result Exception CreateGoalRequestBody
      → Option UserId
      → State collection.Coll
      → Outcome CreateGoalResponseBody × State collection.Coll
  unfolding insert_goal
  handle clock oid (err e) context s = (err e, s)
  handle clock oid (ok body) context s =
      if is_empty body.title
      then (fail bad_request_400 "title is required", s)
      else limited check_rate_limit "user_id not found in token" clock context
          (insert_goal oid body) s
