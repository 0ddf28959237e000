-- ===== src/Tests/Tasks.antt =====
-- A table of tasks in memory, in which the replica shows what the master does.
use leadertask_userver.Base.{
  ◌≡◌, ◌⊎◌, refl, sym, ◌↔◌, true, List, [], ◌∷◌, map, Memᴰ, if◌then◌else◌, Bool-cases, inl, inr,
  Bytes, Result, ok, err, ok-injective, filter, filter-mem_iff, ◌==◌, subst,
}
use leadertask_userver.Base.Int.{ℤ, pos, int_eq, int_beq_iff}
use leadertask_userver.Definitions.{Exception}
use leadertask_userver.Storage.Status.{todo}
use leadertask_userver.Services.TasksTable.{TasksTable, TaskRow, IsInserted, is_task_of, set_status}
use leadertask_userver.Tests.Memory.{Rows, add, change, next_is_new, any, any_sound}

abbrev pub TaskRows : Type 0
TaskRows = Rows (λ (r : TaskRow). r.id)

-- The ids of the table `goals`.
abbrev pub known_goals : List ℤ
known_goals = pos 1 ∷ pos 7 ∷ []

abbrev pub new_row : ℤ → Bytes → TaskRows → TaskRow
new_row goal_id title db = record {
  id = pos db.next;
  goal_id = goal_id;
  title = title;
  status = todo;
}

abbrev pub no_goal : Exception
no_goal = record { what = "foreign key violation" }

unfoldable pub insert : ℤ → Bytes → TaskRows → Result Exception (List TaskRow) × TaskRows
unfolding any
insert goal_id title db =
    if any (λ g. g == goal_id) known_goals
    then (ok (new_row goal_id title db ∷ []), add (λ r. r.id) db (new_row goal_id title db) refl)
    else (err no_goal, db)

pub set_status-id :
    (id goal_id : ℤ) (st : Bytes) (r : TaskRow) → (set_status id goal_id st r).id ≡ r.id
set_status-id id goal_id st r = elim (Bool-cases (is_task_of id goal_id r)) [
  | inl own ↦ rw own refl
  | inr other ↦ rw other refl
]

mem_known : (goal_id : ℤ) → any (λ g. g == goal_id) known_goals ≡ true → Memᴰ goal_id known_goals
mem_known goal_id h =
    let (g, m, e) = any_sound (λ g. g == goal_id) known_goals h in
    subst (λ x. Memᴰ x known_goals) ((int_beq_iff g goal_id).0 e) m

pub insert_ok :
    (goal_id : ℤ) (title : Bytes) (db : TaskRows) (rows : List TaskRow)
    → (insert goal_id title db).0 ≡ ok rows
    → (row : TaskRow) × (rows ≡ row ∷ [])
      × IsInserted goal_id title known_goals db.rows (insert goal_id title db).1.rows row
unfolding insert
insert_ok goal_id title db rows h = elim (Bool-cases (any (λ g. g == goal_id) known_goals)) [
  | inl known ↦ (
    new_row goal_id title db,
    sym (
        ok-injective (insert goal_id title db).0 (new_row goal_id title db ∷ []) rows
          (rw known refl) h),
    (
      refl,
      refl,
      refl,
      λ r m. next_is_new (λ x. x.id) db r m,
      mem_known goal_id known,
      rw known refl,
    ),
  )
  | inr unknown ↦ cc (rw unknown at h)
]

pub insert_err :
    (goal_id : ℤ) (title : Bytes) (db : TaskRows) (e : Exception)
    → (insert goal_id title db).0 ≡ err e
    → ((insert goal_id title db).1.rows ≡ db.rows)
      ⊎ ((row : TaskRow) × IsInserted goal_id title known_goals db.rows
            (insert goal_id title db).1.rows
            row)
unfolding insert
insert_err goal_id title db e h = elim (Bool-cases (any (λ g. g == goal_id) known_goals)) [
  | inl known ↦ cc (rw known at h)
  | inr unknown ↦ inl (rw unknown refl)
]

unfoldable pub update : ℤ → ℤ → Bytes → TaskRows → Result Exception (List TaskRow) × TaskRows
unfolding filter
update id goal_id st db = (
  ok (map (set_status id goal_id st) (filter (is_task_of id goal_id) db.rows)),
  change (λ r. r.id) (set_status id goal_id st) (set_status-id id goal_id st) db,
)

pub update_ok :
    (id goal_id : ℤ) (st : Bytes) (db : TaskRows) (rows : List TaskRow)
    → (update id goal_id st db).0 ≡ ok rows
    → (rows ≡ map (set_status id goal_id st) (filter (is_task_of id goal_id) db.rows))
      × ((update id goal_id st db).1.rows ≡ map (set_status id goal_id st) db.rows)
unfolding update
update_ok id goal_id st db rows h = (ok-injective (update id goal_id st db).0 rows _ h refl, refl)

pub update_err :
    (id goal_id : ℤ) (st : Bytes) (db : TaskRows) (e : Exception)
    → (update id goal_id st db).0 ≡ err e
    → ((update id goal_id st db).1.rows ≡ db.rows)
      ⊎ ((update id goal_id st db).1.rows ≡ map (set_status id goal_id st) db.rows)
unfolding update
update_err id goal_id st db e h = cc h

unfoldable pub select_by_id : ℤ → TaskRows → Result Exception (List TaskRow)
unfolding filter
select_by_id id db = ok (filter (λ r. r.id == id) db.rows)

unfoldable pub select_by_goal : ℤ → TaskRows → Result Exception (List TaskRow)
unfolding filter
select_by_goal goal_id db = ok (filter (λ r. r.goal_id == goal_id) db.rows)

pub select_by_id_ok :
    (id : ℤ) (db : TaskRows) (rows : List TaskRow)
    → select_by_id id db ≡ ok rows
    → rows ≡ filter (λ r. r.id == id) db.rows
unfolding select_by_id
select_by_id_ok id db rows h = ok-injective (select_by_id id db) rows _ h refl

pub select_by_goal_ok :
    (goal_id : ℤ) (db : TaskRows) (rows : List TaskRow)
    → select_by_goal goal_id db ≡ ok rows
    → (r : TaskRow) → Memᴰ r rows ↔ (Memᴰ r db.rows × (r.goal_id ≡ goal_id))
unfolding select_by_goal
select_by_goal_ok goal_id db rows h r =
    let same : filter (λ (x : TaskRow). x.goal_id == goal_id) db.rows ≡ rows =
      ok-injective (select_by_goal goal_id db) _ rows refl h in
    let (to, from) = filter-mem_iff (λ (x : TaskRow). x.goal_id == goal_id) r db.rows in
    (
      λ m.
          let (i, p) = to (subst (λ l. Memᴰ r l) (sym same) m) in
          (i, (int_beq_iff r.goal_id goal_id).0 p),
      λ (i, own). subst (λ l. Memᴰ r l) same (from (i, (int_beq_iff r.goal_id goal_id).1 own)),
    )

abbrev pub memory_tasks : TasksTable
memory_tasks = record {
  Db = TaskRows;
  primary = λ db. db.rows;
  replica = λ db. db.rows;
  goal_ids = λ db. known_goals;
  insert = insert;
  select_by_id = select_by_id;
  select_by_goal = select_by_goal;
  update = update;
  insert_ok = insert_ok;
  insert_err = insert_err;
  select_by_id_ok = select_by_id_ok;
  select_by_goal_ok = select_by_goal_ok;
  update_ok = update_ok;
  update_err = update_err;
}
