-- ===== src/Services/TasksTable.antt =====
-- The table `tasks` of schema.sql, behind the statements of src/repositories/tasks_repository.cpp.
use leadertask_userver.Base.{
  ◌≡◌, ◌≢◌, ◌↔◌, ◌⊎◌, Bool, ◌&&◌, List, [], ◌∷◌, ◌++◌, map, Memᴰ, Bytes, Result, ok, err, ◌==◌,
  filter, if◌then◌else◌,
}
use leadertask_userver.Base.Int.{ℤ, int_eq}
use leadertask_userver.Definitions.{Exception}
use leadertask_userver.Storage.Status.{todo}

pub record TaskRow : Type 0 where
  pub id : ℤ
  pub goal_id : ℤ
  pub title : Bytes
  pub status : Bytes

-- `WHERE id = $1 AND goal_id = $2`.
abbrev pub is_task_of : ℤ → ℤ → TaskRow → Bool
is_task_of id goal_id r = (r.id == id) && (r.goal_id == goal_id)

-- `SET status = $3`, on the rows of the WHERE clause.
abbrev pub set_status : ℤ → ℤ → Bytes → TaskRow → TaskRow
set_status id goal_id st r = if is_task_of id goal_id r then record r { status = st } else r

-- The rows after an insertion: the new row has the values given and an id that no row has, and its goal is one
-- that the foreign key allows.
abbrev pub IsInserted : ℤ → Bytes → List ℤ → List TaskRow → List TaskRow → TaskRow → Type 0
IsInserted goal_id title goal_ids rows rows' row =
    (row.goal_id ≡ goal_id)
    × (row.title ≡ title)
    × (row.status ≡ todo)
    × ((r : TaskRow) → Memᴰ r rows → r.id ≢ row.id)
    × Memᴰ goal_id goal_ids
    × (rows' ≡ rows ++ row ∷ [])

-- `primary` and `replica` are the rows that the master and a slave show; a slave may lag behind. Each
-- statement may fail with an exception of the driver. If the connection is lost or the time is over, it is not
-- known whether the statement was carried out: it was, or it was not.
pub record TasksTable : Type 1 where
  pub Db : Type 0
  pub primary : Db → List TaskRow
  pub replica : Db → List TaskRow
  -- the ids in the table `goals` of PostgreSQL, which `tasks.goal_id` references
  pub goal_ids : Db → List ℤ
  -- INSERT INTO tasks (goal_id, title, status) VALUES ($1, $2, 'todo') RETURNING …
  pub insert : ℤ → Bytes → Db → Result Exception (List TaskRow) × Db
  -- SELECT … FROM tasks WHERE id = $1
  pub select_by_id : ℤ → Db → Result Exception (List TaskRow)
  -- SELECT … FROM tasks WHERE goal_id = $1 ORDER BY created_at
  pub select_by_goal : ℤ → Db → Result Exception (List TaskRow)
  -- UPDATE tasks SET status = $3 WHERE id = $1 AND goal_id = $2 RETURNING …
  pub update : ℤ → ℤ → Bytes → Db → Result Exception (List TaskRow) × Db
  -- the result set is the new row
  pub insert_ok :
      (goal_id : ℤ) (title : Bytes) (db : Db) (rows : List TaskRow)
      → (insert goal_id title db).0 ≡ ok rows
      → (row : TaskRow) × (rows ≡ row ∷ [])
        × IsInserted goal_id title
            (goal_ids db)
            (primary db)
            (primary (insert goal_id title db).1)
            row
  pub insert_err :
      (goal_id : ℤ) (title : Bytes) (db : Db) (e : Exception)
      → (insert goal_id title db).0 ≡ err e
      → (primary (insert goal_id title db).1 ≡ primary db)
        ⊎ ((row : TaskRow) × IsInserted goal_id title
              (goal_ids db)
              (primary db)
              (primary (insert goal_id title db).1)
              row)
  pub select_by_id_ok :
      (id : ℤ) (db : Db) (rows : List TaskRow)
      → select_by_id id db ≡ ok rows
      → rows ≡ filter (λ r. r.id == id) (replica db)
  pub select_by_goal_ok :
      (goal_id : ℤ) (db : Db) (rows : List TaskRow)
      → select_by_goal goal_id db ≡ ok rows
      → (r : TaskRow) → Memᴰ r rows ↔ (Memᴰ r (replica db) × (r.goal_id ≡ goal_id))
  pub update_ok :
      (id goal_id : ℤ) (st : Bytes) (db : Db) (rows : List TaskRow)
      → (update id goal_id st db).0 ≡ ok rows
      → (rows ≡ map (set_status id goal_id st) (filter (is_task_of id goal_id) (primary db)))
        × (primary (update id goal_id st db).1 ≡ map (set_status id goal_id st) (primary db))
  pub update_err :
      (id goal_id : ℤ) (st : Bytes) (db : Db) (e : Exception)
      → (update id goal_id st db).0 ≡ err e
      → (primary (update id goal_id st db).1 ≡ primary db)
        ⊎ (primary (update id goal_id st db).1 ≡ map (set_status id goal_id st) (primary db))
