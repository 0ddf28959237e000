-- ===== src/Repositories/Tasks/Methods.antt =====
-- What `TasksRepository::UpdateStatus` writes.
use leadertask_userver.Base.{
  Bool, ◌≡◌, refl, sym, ◌∙◌, ap, false, not, ◌&&◌, ◌⊎◌, inl, inr, none, some, List, [], ◌∷◌, map,
  Bool-cases, Result-cases, Bytes, ok, ok-injective, some-injective, arith, filter, bytes_beq,
  bytes_beq_iff,
}
use leadertask_userver.Base.Int.{ℤ}
use leadertask_userver.Definitions.{Task}
use leadertask_userver.Storage.Status.{todo, in_progress, done}
use leadertask_userver.Services.TasksTable.{TasksTable, is_task_of, set_status}
use leadertask_userver.Repositories.{optional_row}
use leadertask_userver.Repositories.Tasks.{update_status, as_task}

-- The three texts that the column `status` may hold.
abbrev pub IsStatus : Bytes → Type 0
IsStatus st = (st ≡ todo) ⊎ ((st ≡ in_progress) ⊎ (st ≡ done))

-- The test of `UpdateStatus`.
abbrev pub is_no_status : Bytes → Bool
is_no_status st =
    not (bytes_beq st todo) && (not (bytes_beq st in_progress) && not (bytes_beq st done))

pub IsStatus-cases : (st : Bytes) → is_no_status st ≡ false → IsStatus st
IsStatus-cases st h =
    ground (arith, bytes_beq_iff st todo, bytes_beq_iff st in_progress, bytes_beq_iff st done)

pub is_no_status-IsStatus : (st : Bytes) → IsStatus st → is_no_status st ≡ false
is_no_status-IsStatus st h =
    ground (arith, bytes_beq_iff st todo, bytes_beq_iff st in_progress, bytes_beq_iff st done)

optional_row-some {ℓ} :
    {A : Type ℓ} (l : List A) (a : A) → optional_row l ≡ ok (some a) → l ≡ a ∷ []
optional_row-some [] a h = cc h
optional_row-some (b ∷ []) a h =
    ap (λ x. x ∷ []) (some-injective b a (ok-injective _ (some b) (some a) refl h))
optional_row-some (b ∷ b' ∷ l) a h = cc h

module _ (table : TasksTable) where
  -- `UpdateStatus` gives a task only for one of the three statuses, if exactly one row has the id and the
  -- goal given: that row with the status set, and every row with both is set so.
  pub update_status_ok :
      (task_id goal_id : ℤ) (st : Bytes) (db : table.Db) (task : Task)
      → (update_status table task_id goal_id st db).0 ≡ ok (some task)
      → IsStatus st
        × (map as_task (
              map
                (set_status task_id goal_id st)
                (filter (is_task_of task_id goal_id) (table.primary db)))
            ≡ task ∷ [])
        × (table.primary (update_status table task_id goal_id st db).1
            ≡ map (set_status task_id goal_id st) (table.primary db))
  unfolding update_status
  update_status_ok task_id goal_id st db task h = elim (Bool-cases (is_no_status st)) [
    | inl bad ↦ cc (rw bad at h)
    | inr good ↦ elim (Result-cases (table.update task_id goal_id st db).0) [
      | inl (rows, e) ↦
          let (found, written) = table.update_ok task_id goal_id st db rows e in
          (
            IsStatus-cases st good,
            ap (map as_task) (sym found)
                ∙ optional_row-some (map as_task rows) task (rw (good, e) at h),
            rw good written,
          )
      | inr (x, e) ↦ cc (rw (good, e) at h)
    ]
  ]

  -- A status that is none of the three is answered with no task, and changes nothing.
  pub update_status-same :
      (task_id goal_id : ℤ) (st : Bytes) (db : table.Db)
      → (IsStatus st → ⊥)
      → update_status table task_id goal_id st db ≡ (ok none, db)
  unfolding update_status
  update_status-same task_id goal_id st db bad = elim (Bool-cases (is_no_status st)) [
    | inl e ↦ rw e refl
    | inr good ↦ absurd (bad (IsStatus-cases st good))
  ]
