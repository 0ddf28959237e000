-- ===== src/Repositories/Users/Methods.antt =====
-- `UsersRepository::CreateUser` and `Search`, against the table and against `UsersStorage`.
use leadertask_userver.Base.{
  ◌≡◌, ◌≢◌, refl, ◌∙◌, ap, not, Option, none, some, [], ◌∷◌, ◌++◌, Memᴰ, Bytes, Result, ok, err,
  ok-injective, some-injective, arith,
}
use leadertask_userver.Base.Int.{ℤ}
use leadertask_userver.Definitions.{CreateUserResponseBody}
use leadertask_userver.Substring.Like.{IsPlain, like-containing}
use leadertask_userver.Storage.Users.{UserRecord, is_match, login_differs, mask_missing}
use leadertask_userver.Services.UsersTable.{
  UsersTable, UserRow, PgError, unique_violation, failure, login_clause, like_clause, where_search,
}
use leadertask_userver.Repositories.Users.{create_user, caught_unique}

-- A mask that is given has no special character of LIKE.
abbrev pub IsPlainMask : Option Bytes → Type 0
IsPlainMask none = Unit
IsPlainMask (some m) = IsPlain m

abbrev pub as_record : UserRow → UserRecord
as_record r = record {
  id = r.id;
  login = r.login;
  password = r.password;
  first_name = r.first_name;
  last_name = r.last_name;
}

login_clause-differs :
    (l : Option Bytes) (r : UserRow) → login_clause l r.login ≡ not (login_differs l (as_record r))
login_clause-differs none r = refl
login_clause-differs (some l) r = ground arith

like_clause-missing :
    (m : Option Bytes) (name : Bytes)
    → IsPlainMask m
    → like_clause m name ≡ not (mask_missing m name)
like_clause-missing none name h = refl
like_clause-missing (some m) name h = like-containing m name h ∙ ground arith

-- The WHERE clause of the repository's search selects the rows that the loop of `UsersStorage::Search` does,
-- if the masks have no percent sign, underscore or backslash.
pub where_search-is_match :
    (l f n : Option Bytes) (r : UserRow)
    → IsPlainMask f
    → IsPlainMask n
    → where_search l f n r ≡ is_match l f n (as_record r)
unfolding where_search is_match
where_search-is_match l f n r hf hn =
    rw
      (
        login_clause-differs l r,
        like_clause-missing f r.first_name hf,
        like_clause-missing n r.last_name hn,
      )
      (ground arith)

caught_unique-some :
    (result : Result PgError ℤ) (resp : CreateUserResponseBody)
    → caught_unique result ≡ ok (some resp)
    → result ≡ ok resp.user_id
caught_unique-some (ok id) resp h =
    let same =
      some-injective _ resp (ok-injective _ (some (record { user_id = id })) (some resp) refl h) in
    ap (λ (b : CreateUserResponseBody). ok b.user_id) same
caught_unique-some (err unique_violation) resp h = cc (ok-injective _ none (some resp) refl h)
caught_unique-some (err (failure e)) resp h = cc h

caught_unique-none :
    (result : Result PgError ℤ) → caught_unique result ≡ ok none → result ≡ err unique_violation
caught_unique-none (ok id) h = cc (ok-injective _ (some (record { user_id = id })) none refl h)
caught_unique-none (err unique_violation) h = refl
caught_unique-none (err (failure e)) h = cc h

module _ (table : UsersTable) where
  -- The table has one row more, with the values given, and its id and its login are new.
  pub record IsAdded (login password first_name last_name : Bytes) (id : ℤ) (db db' : table.Db)
      : Type 0 where
    pub new_id : (r : UserRow) → Memᴰ r (table.primary db) → r.id ≢ id
    pub new_login : (r : UserRow) → Memᴰ r (table.primary db) → r.login ≢ login
    pub rows :
        table.primary db'
        ≡ table.primary db
          ++ record {
            id = id;
            login = login;
            password = password;
            first_name = first_name;
            last_name = last_name;
          }
            ∷ []

  pub create_user-IsAdded :
      (login password first_name last_name : Bytes) (db : table.Db) (resp : CreateUserResponseBody)
      → (create_user table login password first_name last_name db).0 ≡ ok (some resp)
      → IsAdded login password first_name last_name resp.user_id db
          (create_user table login password first_name last_name db).1
  unfolding create_user
  create_user-IsAdded login password first_name last_name db resp h =
      let (fresh, rows) =
        table.insert_ok login password first_name last_name db resp.user_id
          (caught_unique-some _ resp h) in
      record { new_id = λ r m. (fresh r m).0; new_login = λ r m. (fresh r m).1; rows = rows }

  -- No id: some row has the login, and the table is as before.
  pub create_user-taken :
      (login password first_name last_name : Bytes) (db : table.Db)
      → (create_user table login password first_name last_name db).0 ≡ ok none
      → ((r : UserRow) × Memᴰ r (table.primary db) × (r.login ≡ login))
        × ((create_user table login password first_name last_name db).1 ≡ db)
  unfolding create_user
  create_user-taken login password first_name last_name db h =
      table.insert_taken login password first_name last_name db (caught_unique-none _ h)
