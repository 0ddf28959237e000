-- ===== src/Views/Goals/List.antt =====
-- The handler of src/views/goals/list.cpp.
use leadertask_userver.Base.{Option, List, [], ◌∷◌, Result, ok, err}
use leadertask_userver.RateLimit
use leadertask_userver.RateLimit.{UserId}
use leadertask_userver.Definitions.{Exception, Goal}
use leadertask_userver.Http.{Outcome, reply}
use leadertask_userver.Services.GoalsCollection.{GoalsCollection}
use leadertask_userver.Repositories
use leadertask_userver.Views.Limited.{Clock, State, Limiter, limited}

-- `CheckRateLimit` of this file.
abbrev pub check_rate_limit : Limiter
check_rate_limit = RateLimit.check_rate_limit

-- The loop that copies the goals.
unfoldable pub copy_goals : List Goal → List Goal
copy_goals [] = []
copy_goals (goal ∷ goals) =
    record {
      id = goal.id;
      title = goal.title;
      description = goal.description;
      user_id = goal.user_id;
    }
    ∷ copy_goals goals

abbrev pub respond_or_throw : Result Exception (List Goal) → Outcome (List Goal)
respond_or_throw (ok goals) = reply (copy_goals goals)
respond_or_throw (err e) = err e

module _ (collection : GoalsCollection) where
  -- The handler behind the limit; it changes no store.
  unfoldable pub list_of_user : UserId → collection.Coll → Outcome (List Goal) × collection.Coll
  list_of_user user_id c =
      (respond_or_throw (Repositories.Goals.get_by_user collection user_id c), c)

  -- `List::HandleRequestJsonThrow`.
  unfoldable pub handle :
      Clock → Option UserId → State collection.Coll → Outcome (List Goal) × State collection.Coll
  unfolding list_of_user
  handle clock context s =
      limited check_rate_limit "user_id not found in token" clock context list_of_user s
