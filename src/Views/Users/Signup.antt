-- ===== src/Views/Users/Signup.antt =====
-- The handler of src/views/users/signup.cpp.
use leadertask_userver.Base.{◌||◌, Option, none, some, if◌then◌else◌, is_empty, Result, ok, err}
use leadertask_userver.Definitions.{Exception, CreateUserRequestBody, CreateUserResponseBody}
use leadertask_userver.Http.{Outcome, fail, reply, bad_request_400, conflict_409}
use leadertask_userver.Services.UsersTable.{UsersTable}
use leadertask_userver.Repositories

-- The end of the `try` block, and its handler: every exception is answered with 400.
abbrev pub respond :
    Result Exception (Option CreateUserResponseBody) → Outcome CreateUserResponseBody
respond (err e) = fail bad_request_400 e.what
respond (ok none) = fail conflict_409 "user already exists"
respond (ok (some created)) = reply (record { user_id = created.user_id })

module _ (table : UsersTable) where
  -- `Signup::HandleRequestJsonThrow`; `body` is the outcome of `As<CreateUserRequestBody>()`.
  unfoldable pub handle :
      Result Exception CreateUserRequestBody → table.Db → Outcome CreateUserResponseBody × table.Db
  handle (err e) db = (fail bad_request_400 e.what, db)
  handle (ok body) db =
      if is_empty body.login
        || (is_empty body.password || (is_empty body.first_name || is_empty body.last_name))
      then (fail bad_request_400 "login, password, first_name, last_name  required", db)
      else let (created, db') =
          Repositories.Users.create_user table body.login body.password body.first_name
            body.last_name db in
        (respond created, db')
