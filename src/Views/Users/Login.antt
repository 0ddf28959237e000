-- ===== src/Views/Users/Login.antt =====
-- The handler of src/views/users/login.cpp.
use leadertask_userver.Base.{
  not, ◌||◌, Option, none, some, if◌then◌else◌, is_empty, Bytes, codes, bytes_beq, Result, ok, err,
}
use leadertask_userver.Number.{to_string}
use leadertask_userver.Definitions.{Exception, LoginRequestBody, LoginResponseBody}
use leadertask_userver.Http.{Outcome, fail, reply, bad_request_400, unauthorized_401}
use leadertask_userver.Services.UsersTable.{UsersTable}
use leadertask_userver.Services.Tokens.{Tokens}
use leadertask_userver.Repositories
use leadertask_userver.Repositories.Users.{UserWithPassword}

abbrev pub issuer : Bytes
issuer = codes "sample"

-- The end of the `try` block, with the token or the exception of signing.
abbrev pub respond : Result Exception Bytes → Outcome LoginResponseBody
respond (ok token) = reply (record { access_token = token })
respond (err e) = fail bad_request_400 e.what

module _ (table : UsersTable) (tokens : Tokens) (secret : Bytes) where
  -- What the repository gave, and the test of the password.
  unfoldable pub with_user :
      Bytes → Result Exception (Option UserWithPassword) → Outcome LoginResponseBody
  with_user password (err e) = fail bad_request_400 e.what
  with_user password (ok none) = fail unauthorized_401 "invalid data"
  with_user password (ok (some user)) =
      if not (bytes_beq user.password password)
      then fail unauthorized_401 "invalid data"
      else respond (tokens.sign secret issuer (to_string user.id))

  -- `Login::HandleRequestJsonThrow`; `body` is the outcome of `As<LoginRequestBody>()`. It changes
  -- nothing.
  unfoldable pub handle : Result Exception LoginRequestBody → table.Db → Outcome LoginResponseBody
  unfolding with_user
  handle (err e) db = fail bad_request_400 e.what
  handle (ok body) db =
      if is_empty body.login || is_empty body.password
      then fail bad_request_400 "login and password are required"
      else with_user body.password
          (Repositories.Users.get_by_login_with_password table body.login db)
