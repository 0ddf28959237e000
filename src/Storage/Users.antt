-- ===== src/Storage/Users.antt =====
-- `UsersStorage` of src/users_storage.hpp.
pub mod Methods
pub mod Search
pub mod Spec
use mathlib.Core.Option
use leadertask_userver.Base.{
  ℕ, ◌+◌, Bool, true, false, not, ◌&&◌, Option, none, some, List, [], ◌∷◌, if◌then◌else◌, Bytes,
  ◌==◌, bytes_eq,
}
use leadertask_userver.Base.Int.{ℤ, pos, int_eq}
use leadertask_userver.Base.Assoc.{find, contains, emplace, is_some, Iteration}
use leadertask_userver.Substring.{find_sub}

pub record UserRecord : Type 0 where
  pub id : ℤ
  pub login : Bytes
  pub password : Bytes
  pub first_name : Bytes
  pub last_name : Bytes

-- `next_id_` counts up from 1 and is used as an `int64_t` key; it is a natural number here.
pub record UsersStorage : Type 0 where
  pub next_id : ℕ
  pub users_by_login : List (Bytes × UserRecord)
  pub users_by_id : List (ℤ × UserRecord)

abbrev pub new_storage : UsersStorage
new_storage = record { next_id = 1; users_by_login = []; users_by_id = [] }

-- `CreateUser`.
unfoldable pub create_user : Bytes → Bytes → Bytes → Bytes → UsersStorage → Option ℤ × UsersStorage
create_user login password first_name last_name s =
    if contains login s.users_by_login
    then (none, s)
    else let id = pos s.next_id in
      let user : UserRecord = record {
        id = id;
        login = login;
        password = password;
        first_name = first_name;
        last_name = last_name;
      } in
      (
        some id,
        record {
          next_id = s.next_id + 1;
          users_by_login = emplace login user s.users_by_login;
          users_by_id = emplace id user s.users_by_id;
        },
      )

-- `GetByLogin`.
unfoldable pub get_by_login : Bytes → UsersStorage → Option UserRecord
get_by_login login s = find login s.users_by_login

-- `GetById`.
unfoldable pub get_by_id : ℤ → UsersStorage → Option UserRecord
get_by_id user_id s = find user_id s.users_by_id

-- `UserExists`.
unfoldable pub user_exists : ℤ → UsersStorage → Bool
user_exists user_id s = contains user_id s.users_by_id

-- `login && user.login != *login`.
abbrev pub login_differs : Option Bytes → UserRecord → Bool
login_differs none user = false
login_differs (some login) user = not (user.login == login)

-- `mask && name.find(*mask) == npos`.
abbrev pub mask_missing : Option Bytes → Bytes → Bool
mask_missing none name = false
mask_missing (some mask) name = not (is_some (find_sub mask name))

-- The body of the loop: `ok` after the three tests.
unfoldable pub is_match : Option Bytes → Option Bytes → Option Bytes → UserRecord → Bool
is_match login first_mask last_mask user =
    let ok = if login_differs login user then false else true in
    let ok' = if mask_missing first_mask user.first_name then false else ok in
    if mask_missing last_mask user.last_name then false else ok'

unfoldable pub search_loop :
    Option Bytes → Option Bytes → Option Bytes → List (Bytes × UserRecord) → List UserRecord
search_loop login first_mask last_mask [] = []
search_loop login first_mask last_mask ((key, user) ∷ m) =
    let rest = search_loop login first_mask last_mask m in
    if is_match login first_mask last_mask user then user ∷ rest else rest

-- `Search`, in an order of iteration of `users_by_login_`.
unfoldable pub search :
    Iteration Bytes UserRecord
    → Option Bytes
    → Option Bytes
    → Option Bytes
    → UsersStorage
    → List UserRecord
unfolding search_loop is_match
search it login first_mask last_mask s =
    search_loop login first_mask last_mask (it.order s.users_by_login)
