-- ===== src/Views/Users/Total.antt =====
-- The handlers of src/views/users/signup.cpp and login.cpp stand in a `try` block: no exception leaves them.
use leadertask_userver.Base.{
  ◌≡◌, refl, ◌||◌, Option, none, some, Bool-cases, inl, inr, Bytes, is_empty, bytes_beq, Result, ok,
  err,
}
use leadertask_userver.Definitions.{
  Exception, CreateUserRequestBody, CreateUserResponseBody, LoginRequestBody,
}
use leadertask_userver.Http.{Outcome, Reply}
use leadertask_userver.Services.UsersTable.{UsersTable}
use leadertask_userver.Services.Tokens.{Tokens}
use leadertask_userver.Repositories.Users.{UserWithPassword}
use leadertask_userver.Views.Users.Laws.{is_incomplete}
use leadertask_userver.Views.Users.Signup
use leadertask_userver.Views.Users.Login

-- The handler has sent a reply, of its own type or an error.
abbrev pub IsReply : {A : Type 0} → Outcome A → Type 0
IsReply {A = A} out = (r : Reply A) × (out ≡ ok r)

module _ (table : UsersTable) (tokens : Tokens) (secret : Bytes) where
  signup_respond-IsReply :
      (created : Result Exception (Option CreateUserResponseBody))
      → IsReply (Signup.respond created)
  signup_respond-IsReply (err e) = (_, refl)
  signup_respond-IsReply (ok none) = (_, refl)
  signup_respond-IsReply (ok (some c)) = (_, refl)

  signup-IsReply :
      (body : Result Exception CreateUserRequestBody) (db : table.Db)
      → IsReply (Signup.handle table body db).0
  unfolding Signup.handle
  signup-IsReply (err e) db = (_, refl)
  signup-IsReply (ok body) db = elim (Bool-cases (is_incomplete body)) [
    | inl bad ↦ rw bad (_, refl)
    | inr good ↦ rw good (signup_respond-IsReply _)
  ]

  login_respond-IsReply : (signed : Result Exception Bytes) → IsReply (Login.respond signed)
  login_respond-IsReply (ok token) = (_, refl)
  login_respond-IsReply (err e) = (_, refl)

  with_user-IsReply :
      (password : Bytes) (found : Result Exception (Option UserWithPassword))
      → IsReply (Login.with_user table tokens secret password found)
  unfolding Login.with_user
  with_user-IsReply password (err e) = (_, refl)
  with_user-IsReply password (ok none) = (_, refl)
  with_user-IsReply password (ok (some user)) =
      elim (Bool-cases (bytes_beq user.password password)) [
        | inl same ↦ rw same (login_respond-IsReply _)
        | inr other ↦ rw other (_, refl)
      ]

  login-IsReply :
      (body : Result Exception LoginRequestBody) (db : table.Db)
      → IsReply (Login.handle table tokens secret body db)
  unfolding Login.handle
  login-IsReply (err e) db = (_, refl)
  login-IsReply (ok body) db = elim (Bool-cases (is_empty body.login || is_empty body.password)) [
    | inl bad ↦ rw bad (_, refl)
    | inr good ↦ rw good (with_user-IsReply body.password _)
  ]

  -- A sign-up and a login always send a reply, whether the body can be parsed or not and whatever the database and
  -- the signing throw.
  pub handle-IsReply :
      (new : Result Exception CreateUserRequestBody) (known : Result Exception LoginRequestBody)
      (db : table.Db)
      → IsReply (Signup.handle table new db).0 × IsReply (Login.handle table tokens secret known db)
  handle-IsReply new known db = (signup-IsReply new db, login-IsReply known db)
