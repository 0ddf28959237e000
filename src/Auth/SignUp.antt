-- ===== src/Auth/SignUp.antt =====
-- A user who has signed up can log in, and is then known to the checker under the id of the sign-up.
use leadertask_userver.Base.{
  ◌≡◌, ◌≢◌, refl, ◌∙◌, ap, false, ◌||◌, none, some, List, [], ◌∷◌, ◌++◌, Memᴰ, Bytes, is_empty, ok,
  arith, inl, inr, bytes_beq_iff, filter, filter-append, filter_sound, List-cases, ◌==◌, bytes_eq,
}
use leadertask_userver.Base.Int.{ℤ, IsInt64}
use leadertask_userver.Number.{to_string}
use leadertask_userver.Definitions.{CreateUserRequestBody, CreateUserResponseBody, LoginRequestBody}
use leadertask_userver.Http.{reply}
use leadertask_userver.Services.Tokens.{Tokens}
use leadertask_userver.Services.UsersTable.{UsersTable, UserRow}
use leadertask_userver.Repositories.Users.{get_by_login_with_password, front_row, with_password}
use leadertask_userver.Repositories.Users.Methods.{IsAdded}
use leadertask_userver.Views.Users.Signup
use leadertask_userver.Views.Users.Login
use leadertask_userver.Views.Users.Laws.{is_incomplete, signup-IsAdded}
use leadertask_userver.Auth.{accepted, rejected, algorithm, check_verified, check_auth}
use leadertask_userver.Auth.Login.{check_auth_bearer, check_subject-to_string}

-- No row has the login: the filter is empty.
filter_new :
    (login : Bytes) (rows : List UserRow)
    → ((r : UserRow) → Memᴰ r rows → r.login ≢ login)
    → filter (λ r. r.login == login) rows ≡ []
filter_new login rows new = elim (List-cases (filter (λ (r : UserRow). r.login == login) rows)) [
  | inl none_there ↦ none_there
  | inr some_there ↦ absurd (
      some_there (
        empty_of (filter (λ r. r.login == login) rows) (λ r m.
          let (stored, own) = filter_sound (λ x. x.login == login) r rows m in
          new r stored ((bytes_beq_iff r.login login).0 own))))
]
  where
    empty_of : (xs : List UserRow) → ((r : UserRow) → Memᴰ r xs → ⊥) → xs ≡ []
    empty_of [] h = refl
    empty_of (x ∷ xs) h = absurd (h x (Memᴰ.head refl))

abbrev pub login_of : CreateUserRequestBody → LoginRequestBody
login_of body = record { login = body.login; password = body.password }

module _ (table : UsersTable) (tokens : Tokens) (secret : Bytes) where
  abbrev row_of : CreateUserRequestBody → ℤ → UserRow
  row_of body id = record {
    id = id;
    login = body.login;
    password = body.password;
    first_name = body.first_name;
    last_name = body.last_name;
  }

  found_new :
      (body : CreateUserRequestBody) (id : ℤ) (db db' : table.Db) (rows : List UserRow)
      → IsAdded table body.login body.password body.first_name body.last_name id db db'
      → table.replica db' ≡ table.primary db'
      → table.select_by_login body.login db' ≡ ok rows
      → get_by_login_with_password table body.login db' ≡ ok (some (with_password (row_of body id)))
  unfolding get_by_login_with_password filter
  found_new body id db db' rows added caught_up read =
      let own = (bytes_beq_iff body.login body.login).1 refl in
      let last : filter (λ r. r.login == body.login) (row_of body id ∷ []) ≡ row_of body id ∷ [] =
        rw own refl in
      let all =
        table.select_by_login_ok body.login db' rows read
        ∙ ap (filter (λ r. r.login == body.login)) (caught_up ∙ added.rows)
        ∙ filter-append (λ r. r.login == body.login) (table.primary db) (row_of body id ∷ [])
        ∙ ap (λ l. l ++ filter (λ r. r.login == body.login) (row_of body id ∷ []))
            (filter_new body.login (table.primary db) added.new_login)
        ∙ last in
      rw read (ap (λ l. ok (front_row l)) all)

  complete :
      (body : CreateUserRequestBody)
      → is_incomplete body ≡ false
      → (is_empty body.login || is_empty body.password) ≡ false
  complete body h = ground arith

  logged_in :
      (body : CreateUserRequestBody) (id : ℤ) (db' : table.Db) (token : Bytes)
      → is_incomplete body ≡ false
      → get_by_login_with_password table body.login db' ≡ ok (some (with_password (row_of body id)))
      → tokens.sign secret Login.issuer (to_string id) ≡ ok token
      → Login.handle table tokens secret (ok (login_of body)) db'
        ≡ reply (record { access_token = token })
  unfolding Login.handle
  logged_in body id db' token whole found signed =
      let same = (bytes_beq_iff body.password body.password).1 refl in
      rw (complete body whole, found, same, signed) refl

  -- After a sign-up that replied with an id, a login with the same login and password replies with a token,
  -- and the header with that token is accepted as the user of that id. The replica must have caught up with
  -- the master, the login's query and the signing must not throw, and the id must be in the range of an
  -- `int64_t`.
  pub check_auth-signup :
      (body : CreateUserRequestBody) (db : table.Db) (resp : CreateUserResponseBody)
      (rows : List UserRow) (token : Bytes)
      → (Signup.handle table (ok body) db).0 ≡ reply resp
      → table.replica (Signup.handle table (ok body) db).1
        ≡ table.primary (Signup.handle table (ok body) db).1
      → table.select_by_login body.login (Signup.handle table (ok body) db).1 ≡ ok rows
      → tokens.sign secret Login.issuer (to_string resp.user_id) ≡ ok token
      → IsInt64 resp.user_id
      → (Login.handle table tokens secret (ok (login_of body)) (Signup.handle table (ok body) db).1
          ≡ reply (record { access_token = token }))
        × (check_auth tokens secret (algorithm ++ token)
            ≡ (rejected accepted "" none, some resp.user_id))
  check_auth-signup body db resp rows token made caught_up read signed ranged =
      let (whole, added) = signup-IsAdded table body db resp made in
      (
        logged_in body resp.user_id _ token whole
            (found_new body resp.user_id db _ rows added caught_up read) signed,
        check_auth_bearer tokens secret token
            ∙ ap check_verified
                (tokens.verify_sign secret Login.issuer (to_string resp.user_id) token signed)
            ∙ check_subject-to_string resp.user_id ranged,
      )
