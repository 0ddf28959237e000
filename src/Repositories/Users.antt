-- ===== src/Repositories/Users.antt =====
-- `UsersRepository` of src/repositories/users_repository.cpp.
pub mod Methods
use leadertask_userver.Base.{
  Bool, Option, none, some, List, [], ◌∷◌, map, Bytes, Result, ok, err, map_ok, and_then,
}
use leadertask_userver.Base.Int.{ℤ}
use leadertask_userver.Definitions.{Exception, User, CreateUserResponseBody}
use leadertask_userver.Services.UsersTable.{UsersTable, UserRow, PgError, unique_violation, failure}
use leadertask_userver.Repositories.{optional_row}

pub record UserWithPassword : Type 0 where
  pub id : ℤ
  pub login : Bytes
  pub password : Bytes
  pub first_name : Bytes
  pub last_name : Bytes

abbrev pub as_user : UserRow → User
as_user r = record {
  id = r.id;
  login = r.login;
  first_name = r.first_name;
  last_name = r.last_name;
}

abbrev pub with_password : UserRow → UserWithPassword
with_password r = record {
  id = r.id;
  login = r.login;
  password = r.password;
  first_name = r.first_name;
  last_name = r.last_name;
}

-- A unique violation is caught; any other exception goes on.
abbrev pub caught_unique : Result PgError ℤ → Result Exception (Option CreateUserResponseBody)
caught_unique (ok id) = ok (some (record { user_id = id }))
caught_unique (err unique_violation) = ok none
caught_unique (err (failure e)) = err e

-- `if (result.IsEmpty()) return std::nullopt; auto row = result.Front();`
abbrev pub front_row : List UserRow → Option UserWithPassword
front_row [] = none
front_row (r ∷ rs) = some (with_password r)

module _ (table : UsersTable) where
  -- `CreateUser`.
  unfoldable pub create_user :
      Bytes
      → Bytes
      → Bytes
      → Bytes
      → table.Db
      → Result Exception (Option CreateUserResponseBody) × table.Db
  create_user login password first_name last_name db =
      let (result, db') = table.insert login password first_name last_name db in
      (caught_unique result, db')

  -- `GetByLoginWithPassword`.
  unfoldable pub get_by_login_with_password :
      Bytes → table.Db → Result Exception (Option UserWithPassword)
  get_by_login_with_password login db = map_ok front_row (table.select_by_login login db)

  -- `GetById`.
  unfoldable pub get_by_id : ℤ → table.Db → Result Exception (Option User)
  get_by_id user_id db =
      and_then (table.select_by_id user_id db) (λ rows. optional_row (map as_user rows))

  -- `UserExists`.
  unfoldable pub user_exists : ℤ → table.Db → Result Exception Bool
  user_exists user_id db = table.exists user_id db

  -- `Search`.
  unfoldable pub search :
      Option Bytes → Option Bytes → Option Bytes → table.Db → Result Exception (List User)
  search login first_name_mask last_name_mask db =
      map_ok (map as_user) (table.select_search login first_name_mask last_name_mask db)
