-- ===== src/Auth/Login.antt =====
-- A token of the login handler is accepted by the checker, and stands for the user who logged in.
use leadertask_userver.Base.{
  ◌≡◌, refl, ◌∙◌, ap, ◌||◌, Option, none, some, List, [], ◌∷◌, ◌++◌, Memᴰ, map_ok, Bytes, is_empty,
  Result-cases, subst, Result, ok, err, arith, Bool-cases, inl, inr, bytes_beq, bytes_beq_iff,
  filter, filter_sound, ◌==◌, bytes_eq,
}
use leadertask_userver.Base.Int.{ℤ, IsInt64}
use leadertask_userver.Number.{to_string}
use leadertask_userver.Number.RoundTrip.{stoll-to_string, is_empty-to_string}
use leadertask_userver.Definitions.{Exception, LoginRequestBody}
use leadertask_userver.Http.{reply}
use leadertask_userver.Services.Tokens.{Tokens}
use leadertask_userver.Services.UsersTable.{UsersTable, UserRow}
use leadertask_userver.Repositories.Users.{
  get_by_login_with_password, front_row, UserWithPassword, with_password,
}
use leadertask_userver.Views.Users.Login
use leadertask_userver.Views.Users.Login.{with_user, issuer, respond, handle}
use leadertask_userver.Auth.{
  accepted, rejected, service_name, algorithm, after_scheme, check_subject, check_verified,
  check_auth,
}

pub check_subject-to_string :
    (z : ℤ) → IsInt64 z → check_subject (to_string z) ≡ (rejected accepted "" none, some z)
unfolding check_subject
check_subject-to_string z h = rw (is_empty-to_string z, stoll-to_string z h, check_subject)

after_scheme-append : (m s : Bytes) → after_scheme m (m ++ s) ≡ s
unfolding after_scheme
after_scheme-append [] s = refl
after_scheme-append (a ∷ m) s = after_scheme-append m s

-- A header with the scheme and a token.
pub check_auth_bearer :
    (tokens : Tokens) (secret token : Bytes)
    → check_auth tokens secret (algorithm ++ token)
      ≡ check_verified (tokens.verify secret service_name token)
unfolding check_auth
check_auth_bearer tokens secret token = refl

respond_inv :
    (signed : Result Exception Bytes) (token : Bytes)
    → respond signed ≡ reply (record { access_token = token })
    → signed ≡ ok token
respond_inv (ok t) token h = ground arith
respond_inv (err e) token h = cc

handle_inv :
    (table : UsersTable) (tokens : Tokens) (secret : Bytes) (body : LoginRequestBody)
    (db : table.Db) (token : Bytes)
    → Login.handle table tokens secret (ok body) db ≡ reply (record { access_token = token })
    → with_user table tokens secret body.password (get_by_login_with_password table body.login db)
      ≡ reply (record { access_token = token })
unfolding handle
handle_inv table tokens secret body db token h =
    elim (Bool-cases (is_empty body.login || is_empty body.password)) [
      | inl bad ↦ cc (rw (bad, handle) at h)
      | inr good ↦ rw (good, handle) at h
    ]

-- What a token in the reply says of the steps before it.
with_user_inv :
    (table : UsersTable) (tokens : Tokens) (secret password : Bytes)
    (found : Result Exception (Option UserWithPassword)) (token : Bytes)
    → with_user table tokens secret password found ≡ reply (record { access_token = token })
    → (u : UserWithPassword) × (found ≡ ok (some u))
      × (u.password ≡ password)
      × (tokens.sign secret issuer (to_string u.id) ≡ ok token)
unfolding with_user
with_user_inv table tokens secret password (err e) token h = cc
with_user_inv table tokens secret password (ok none) token h = cc
with_user_inv table tokens secret password (ok (some u)) token h =
    elim (Bool-cases (bytes_beq u.password password)) [
      | inl same ↦
          let signed : respond (tokens.sign secret issuer (to_string u.id))
              ≡ reply (record { access_token = token }) =
            rw (same, with_user) at h in
          (u, refl, (bytes_beq_iff u.password password).0 same, respond_inv _ token signed)
      | inr other ↦ cc (rw (other, with_user) at h)
    ]

-- What the repository gave comes from a row of the replica with the login.
found_inv :
    (table : UsersTable) (login : Bytes) (db : table.Db) (u : UserWithPassword)
    → get_by_login_with_password table login db ≡ ok (some u)
    → (r : UserRow) × Memᴰ r (table.replica db) × (r.login ≡ login) × (with_password r ≡ u)
unfolding get_by_login_with_password
found_inv table login db u h = elim (Result-cases (table.select_by_login login db)) [
  | inl (rows, e) ↦ first_row rows e (table.select_by_login_ok login db rows e) (rw e at h)
  | inr (x, e) ↦ cc (rw e at h)
]
  where
    first_row :
        (rows : List UserRow)
        → table.select_by_login login db ≡ ok rows
        → rows ≡ filter (λ r. r.login == login) (table.replica db)
        → map_ok {E = Exception} front_row (ok rows) ≡ ok (some u)
        → (r : UserRow) × Memᴰ r (table.replica db) × (r.login ≡ login) × (with_password r ≡ u)
    first_row [] e all f = cc f
    first_row (r ∷ rs) e all f =
        let (stored, same) =
          filter_sound (λ w. w.login == login) r (table.replica db)
            (subst (Memᴰ r) all (Memᴰ.head refl)) in
        (r, stored, (bytes_beq_iff r.login login).0 same, cc f)

-- If the ids of the replica are in the range of an `int64_t`, a login that replies with a token was
-- made with the login and the password of a user of the replica, and the header with that token is
-- accepted, by a checker with the same secret, as that user.
pub login-check_auth :
    (table : UsersTable) (tokens : Tokens) (secret : Bytes) (body : LoginRequestBody)
    (db : table.Db) (token : Bytes)
    → ((r : UserRow) → Memᴰ r (table.replica db) → IsInt64 r.id)
    → Login.handle table tokens secret (ok body) db ≡ reply (record { access_token = token })
    → (r : UserRow) × Memᴰ r (table.replica db)
      × (r.login ≡ body.login)
      × (r.password ≡ body.password)
      × (check_auth tokens secret (algorithm ++ token) ≡ (rejected accepted "" none, some r.id))
login-check_auth table tokens secret body db token ranged h =
    let (u, found, password, signed) =
      with_user_inv table tokens secret body.password _ token
        (handle_inv table tokens secret body db token h) in
    let (r, stored, login, same) = found_inv table body.login db u found in
    (
      r,
      stored,
      login,
      ap (λ (w : UserWithPassword). w.password) same ∙ password,
      check_auth_bearer tokens secret token
          ∙ ap check_verified (
              tokens.verify_sign secret issuer (to_string r.id) token (
                ap (λ (w : UserWithPassword). tokens.sign secret issuer (to_string w.id)) same
                ∙ signed))
          ∙ check_subject-to_string r.id (ranged r stored),
    )
