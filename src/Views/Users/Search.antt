-- ===== src/Views/Users/Search.antt =====
-- The handler of src/views/users/search.cpp.
use leadertask_userver.Base.{
  ◌&&◌, Option, none, some, List, [], ◌∷◌, if◌then◌else◌, Bytes, is_empty, Result, ok, err,
}
use leadertask_userver.RateLimit
use leadertask_userver.RateLimit.{UserId}
use leadertask_userver.Definitions.{Exception, User}
use leadertask_userver.Http.{HttpRequest, Outcome, fail, reply, bad_request_400}
use leadertask_userver.Services.UsersTable.{UsersTable}
use leadertask_userver.Repositories
use leadertask_userver.Views.Limited.{Clock, State, Limiter, limited}

-- `CheckRateLimit` of this file.
abbrev pub check_rate_limit : Limiter
check_rate_limit = RateLimit.check_rate_limit

-- `has ? std::optional<std::string>(arg) : std::nullopt`.
abbrev pub given : Bytes → Option Bytes
given arg = if is_empty arg then none else some arg

-- The loop that copies the users.
unfoldable pub copy_users : List User → List User
copy_users [] = []
copy_users (u ∷ us) =
    record { id = u.id; login = u.login; first_name = u.first_name; last_name = u.last_name }
    ∷ copy_users us

abbrev pub respond_or_throw : Result Exception (List User) → Outcome (List User)
respond_or_throw (ok users) = reply (copy_users users)
respond_or_throw (err e) = err e

module _ (table : UsersTable) where
  -- The handler behind the limit; it changes no store.
  unfoldable pub search_users : HttpRequest → UserId → table.Db → Outcome (List User) × table.Db
  search_users request user_id db =
      let login = request.get_arg "login" in
      let first_mask = request.get_arg "firstNameMask" in
      let last_mask = request.get_arg "lastNameMask" in
      if is_empty login && (is_empty first_mask && is_empty last_mask)
      then (fail bad_request_400 "at least one filter required", db)
      else (
        respond_or_throw
            (Repositories.Users.search table (given login) (given first_mask) (given last_mask) db),
        db,
      )

  -- `Search::HandleRequestJsonThrow`.
  unfoldable pub handle :
      Clock → HttpRequest → Option UserId → State table.Db → Outcome (List User) × State table.Db
  unfolding search_users
  handle clock request context s =
      limited check_rate_limit "user_id not foundtoken" clock context (search_users request) s
