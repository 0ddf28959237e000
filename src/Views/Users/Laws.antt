-- ===== src/Views/Users/Laws.antt =====
-- What the handlers of src/views/users/signup.cpp and search.cpp change and show.
use leadertask_userver.Base.{
  ◌≡◌, refl, sym, ◌∙◌, ap, ◌↔◌, Bool, true, false, ◌&&◌, ◌||◌, inl, inr, Option, none, some, List,
  [], ◌∷◌, map, Memᴰ, Bool-cases, Result-cases, Bytes, is_empty, Result, ok, err, ok-injective,
}
use leadertask_userver.RateLimit.{UserId}
use leadertask_userver.Definitions.{Exception, User, CreateUserRequestBody, CreateUserResponseBody}
use leadertask_userver.Http.{HttpRequest, reply, reply-injective, fail, conflict_409}
use leadertask_userver.Services.UsersTable.{UsersTable, UserRow, where_search}
use leadertask_userver.Repositories.Users.{search, as_user}
use leadertask_userver.Repositories.Users.Methods.{IsAdded, create_user-IsAdded, create_user-taken}
use leadertask_userver.Views.Limited.{Clock, State}
use leadertask_userver.Views.Limited.Cases.{limited_value}
use leadertask_userver.Views.Users.Signup
use leadertask_userver.Views.Users.Search
use leadertask_userver.Views.Users.Search.{
  check_rate_limit, given, copy_users, respond_or_throw, search_users,
}

abbrev pub is_incomplete : CreateUserRequestBody → Bool
is_incomplete b =
    is_empty b.login || (is_empty b.password || (is_empty b.first_name || is_empty b.last_name))

module _ (table : UsersTable) where
  reply_inv :
      (created : Result Exception (Option CreateUserResponseBody)) (resp : CreateUserResponseBody)
      → Signup.respond created ≡ reply resp
      → created ≡ ok (some resp)
  reply_inv (err e) resp h = cc h
  reply_inv (ok none) resp h = cc h
  reply_inv (ok (some c)) resp h =
      ap (λ (b : CreateUserResponseBody). ok (some b)) (reply-injective c resp h)

  conflict_inv :
      (created : Result Exception (Option CreateUserResponseBody))
      → Signup.respond created ≡ fail conflict_409 "user already exists"
      → created ≡ ok none
  conflict_inv (err e) h = cc h
  conflict_inv (ok none) h = refl
  conflict_inv (ok (some c)) h = cc h

  -- A sign-up that replies with an id was complete, and added one user with the values of the body, under
  -- that id, which no user had before, as no user had the login.
  pub signup-IsAdded :
      (body : CreateUserRequestBody) (db : table.Db) (resp : CreateUserResponseBody)
      → (Signup.handle table (ok body) db).0 ≡ reply resp
      → (is_incomplete body ≡ false)
        × IsAdded table body.login body.password body.first_name body.last_name resp.user_id db
            (Signup.handle table (ok body) db).1
  unfolding Signup.handle
  signup-IsAdded body db resp h = elim (Bool-cases (is_incomplete body)) [
    | inl bad ↦ cc (rw bad at h)
    | inr good ↦ (
      good,
      rw good (
          create_user-IsAdded table body.login body.password body.first_name body.last_name db resp
            (reply_inv _ resp (rw good at h))),
    )
  ]

  -- A sign-up that is answered with the conflict was of a login that some user has.
  pub signup_conflict :
      (body : CreateUserRequestBody) (db : table.Db)
      → (Signup.handle table (ok body) db).0 ≡ fail conflict_409 "user already exists"
      → (r : UserRow) × Memᴰ r (table.primary db) × (r.login ≡ body.login)
  unfolding Signup.handle
  signup_conflict body db h = elim (Bool-cases (is_incomplete body)) [
    | inl bad ↦ cc (rw bad at h)
    | inr good ↦
        (create_user-taken table body.login body.password body.first_name body.last_name db
          (conflict_inv _ (rw good at h))).0
  ]

copy_users_lem : (users : List User) → copy_users users ≡ users
unfolding copy_users
copy_users_lem [] = refl
copy_users_lem (u ∷ us) = ap (λ l. u ∷ l) (copy_users_lem us)

respond_inv :
    (found : Result Exception (List User)) (users : List User)
    → respond_or_throw found ≡ reply users
    → found ≡ ok users
respond_inv (ok us) users h =
    ap ok (sym (copy_users_lem us) ∙ reply-injective (copy_users us) users h)
respond_inv (err e) users h = cc h

module _ (table : UsersTable) where
  -- A list of users that the filters of a request selected.
  pub record IsSelected (request : HttpRequest) (db : table.Db) (users : List User) : Type 0 where
    pub some_filter :
        is_empty (request.get_arg "login")
          && (is_empty (request.get_arg "firstNameMask")
              && is_empty (request.get_arg "lastNameMask"))
        ≡ false
    pub rows : List UserRow
    pub shown : users ≡ map as_user rows
    pub selected :
        (r : UserRow)
        → Memᴰ r rows ↔ (
            Memᴰ r (table.replica db)
            × (where_search
                  (given (request.get_arg "login"))
                  (given (request.get_arg "firstNameMask"))
                  (given (request.get_arg "lastNameMask"))
                  r
                ≡ true))

  search-rows :
      (l f n : Option Bytes) (db : table.Db) (users : List User)
      → search table l f n db ≡ ok users
      → (rows : List UserRow) × (table.select_search l f n db ≡ ok rows)
        × (users ≡ map as_user rows)
  unfolding search
  search-rows l f n db users h = elim (Result-cases (table.select_search l f n db)) [
    | inl (rows, e) ↦ (
      rows,
      e,
      sym (ok-injective (ok (map as_user rows)) (map as_user rows) users refl (rw e at h)),
    )
    | inr (x, e) ↦ cc (rw e at h)
  ]

  search_users-IsSelected :
      (request : HttpRequest) (user_id : UserId) (db : table.Db) (users : List User)
      → (search_users table request user_id db).0 ≡ reply users
      → IsSelected request db users
  unfolding search_users
  search_users-IsSelected request user_id db users h =
      let login = request.get_arg "login" in
      let first_mask = request.get_arg "firstNameMask" in
      let last_mask = request.get_arg "lastNameMask" in
      elim (Bool-cases (is_empty login && (is_empty first_mask && is_empty last_mask))) [
        | inl bad ↦ cc (rw bad at h)
        | inr good ↦
            let (rows, e, shown) =
              search-rows (given login) (given first_mask) (given last_mask) db users
                (respond_inv _ users (rw good at h)) in
            record {
              some_filter = good;
              rows = rows;
              shown = shown;
              selected = table.select_search_ok _ _ _ db rows e;
            }
      ]

  -- If the search replies with a list, some user is known, at least one filter is not empty, and the list
  -- holds, without the passwords, exactly the users of the replica that the WHERE clause selects, in which
  -- a filter that is empty counts as not given.
  pub search-IsSelected :
      (clock : Clock) (request : HttpRequest) (context : Option UserId) (s : State table.Db)
      (users : List User)
      → (Search.handle table clock request context s).0 ≡ reply users
      → (user_id : UserId) × (context ≡ some user_id) × IsSelected request s.store users
  unfolding Search.handle
  search-IsSelected clock request context s users h =
      let (user_id, known, same) =
        limited_value check_rate_limit "user_id not foundtoken" clock (search_users table request) s
          context _ refl h in
      (user_id, known, search_users-IsSelected request user_id s.store users (ap (λ r. r.0) same))
