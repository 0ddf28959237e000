-- ===== src/Views/Tasks/Stores.antt =====
-- The stores of the task handlers, and the test of a goal's owner that two of them make.
use leadertask_userver.Base.{Bool, false, Option, none, some, ◌==◌}
use leadertask_userver.Base.Int.{ℤ, int_eq}
use leadertask_userver.Services.TasksTable.{TasksTable}
use leadertask_userver.Services.GoalsCollection.{GoalsCollection}

pub record Stores (table : TasksTable) (collection : GoalsCollection) : Type 0 where
  pub tasks : table.Db
  pub goals : collection.Coll

-- `goal->userId == user_id`, where the field is optional.
abbrev pub is_owner : ℤ → Option ℤ → Bool
is_owner user_id none = false
is_owner user_id (some owner) = owner == user_id
