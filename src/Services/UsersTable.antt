-- ===== src/Services/UsersTable.antt =====
-- The table `users` of schema.sql, behind the statements of src/repositories/users_repository.cpp.
use leadertask_userver.Base.{
  ◌≡◌, ◌≢◌, ◌↔◌, ◌⊎◌, Bool, true, ◌&&◌, Option, none, some, List, [], ◌∷◌, ◌++◌, Memᴰ, Bytes,
  Result, ok, err, ◌==◌, filter, bytes_eq,
}
use leadertask_userver.Base.Int.{ℤ, int_eq}
use leadertask_userver.Definitions.{Exception}
use leadertask_userver.Substring.{like, containing}

pub record UserRow : Type 0 where
  pub id : ℤ
  pub login : Bytes
  pub password : Bytes
  pub first_name : Bytes
  pub last_name : Bytes

-- `$1::TEXT IS NULL OR login = $1`.
abbrev pub login_clause : Option Bytes → Bytes → Bool
login_clause none login = true
login_clause (some l) login = login == l

-- `$2::TEXT IS NULL OR name LIKE '%' || $2 || '%'`.
abbrev pub like_clause : Option Bytes → Bytes → Bool
like_clause none name = true
like_clause (some mask) name = like (containing mask) name

-- The WHERE clause of the search.
unfoldable pub where_search : Option Bytes → Option Bytes → Option Bytes → UserRow → Bool
unfolding like
where_search login first_name_mask last_name_mask r =
    login_clause login r.login
    && (like_clause first_name_mask r.first_name && like_clause last_name_mask r.last_name)

-- The rows after an insertion: the new row has the values given, and an id and a login that no row has.
abbrev pub IsInserted : Bytes → Bytes → Bytes → Bytes → List UserRow → List UserRow → ℤ → Type 0
IsInserted login password first_name last_name rows rows' id =
    ((r : UserRow) → Memᴰ r rows → (r.id ≢ id) × (r.login ≢ login))
    × (rows'
        ≡ rows
          ++ record {
            id = id;
            login = login;
            password = password;
            first_name = first_name;
            last_name = last_name;
          }
            ∷ [])

-- The two ways in which a statement fails.
pub data PgError : Type 0 where
  unique_violation : PgError
  failure : Exception → PgError

pub record UsersTable : Type 1 where
  pub Db : Type 0
  pub primary : Db → List UserRow
  pub replica : Db → List UserRow
  -- INSERT INTO users (login, password, first_name, last_name) VALUES ($1, $2, $3, $4) RETURNING id
  pub insert : Bytes → Bytes → Bytes → Bytes → Db → Result PgError ℤ × Db
  -- SELECT … FROM users WHERE login = $1
  pub select_by_login : Bytes → Db → Result Exception (List UserRow)
  -- SELECT … FROM users WHERE id = $1
  pub select_by_id : ℤ → Db → Result Exception (List UserRow)
  -- SELECT EXISTS(SELECT 1 FROM users WHERE id = $1)
  pub exists : ℤ → Db → Result Exception Bool
  -- SELECT … FROM users WHERE … ORDER BY id
  pub select_search :
      Option Bytes → Option Bytes → Option Bytes → Db → Result Exception (List UserRow)
  -- the new row has an id and a login that no row has
  pub insert_ok :
      (login password first_name last_name : Bytes) (db : Db) (id : ℤ)
      → (insert login password first_name last_name db).0 ≡ ok id
      → IsInserted login password first_name last_name
          (primary db)
          (primary (insert login password first_name last_name db).1)
          id
  -- if the connection is lost or the time is over, it is not known whether the statement was carried out
  pub insert_failed :
      (login password first_name last_name : Bytes) (db : Db) (e : Exception)
      → (insert login password first_name last_name db).0 ≡ err (failure e)
      → (primary (insert login password first_name last_name db).1 ≡ primary db)
        ⊎ ((id : ℤ) × IsInserted login password first_name last_name
              (primary db)
              (primary (insert login password first_name last_name db).1)
              id)
  -- the only unique column that the statement sets is the login
  pub insert_taken :
      (login password first_name last_name : Bytes) (db : Db)
      → (insert login password first_name last_name db).0 ≡ err unique_violation
      → ((r : UserRow) × Memᴰ r (primary db) × (r.login ≡ login))
        × ((insert login password first_name last_name db).1 ≡ db)
  pub select_by_login_ok :
      (login : Bytes) (db : Db) (rows : List UserRow)
      → select_by_login login db ≡ ok rows
      → rows ≡ filter (λ r. r.login == login) (replica db)
  pub select_by_id_ok :
      (id : ℤ) (db : Db) (rows : List UserRow)
      → select_by_id id db ≡ ok rows
      → rows ≡ filter (λ r. r.id == id) (replica db)
  pub exists_ok :
      (id : ℤ) (db : Db) (b : Bool)
      → exists id db ≡ ok b
      → (b ≡ true) ↔ ((r : UserRow) × Memᴰ r (replica db) × (r.id ≡ id))
  pub select_search_ok :
      (login first_name_mask last_name_mask : Option Bytes) (db : Db) (rows : List UserRow)
      → select_search login first_name_mask last_name_mask db ≡ ok rows
      → (r : UserRow)
      → Memᴰ r rows
        ↔ (Memᴰ r (replica db) × (where_search login first_name_mask last_name_mask r ≡ true))
