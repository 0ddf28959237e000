-- ===== src/Storage/Tasks/Spec.antt =====
-- What `TasksStorage` of src/tasks_storage.hpp promises: it answers every call as one list of tasks does, in the
-- order of their creation. The map by id, the lists by goal and the counter are not seen.
pub mod Rows
pub mod Simulation
use mathlib.Core.List.Memᴰ
use leadertask_userver.Base.{
  first, ℕ, suc, ◌+◌, ◌<◌, ◌≤◌, ◌^◌, ◌-◌, ◌≡◌, ◌≢◌, refl, sym, ◌∙◌, ap, Bool, true, false, ◌&&◌,
  Option, none, some, List, [], ◌∷◌, ◌++◌, map, Memᴰ, if◌then◌else◌, Bytes, ◌==◌, arith, filter,
  inl, inr, Bool-cases, length, length-append, AreDistinct, AreDistinct-append, AreDistinct-map,
  ne_of_beq, beq_ne, some-injective, subst,
}
use leadertask_userver.Base.Int.{ℤ, pos, int_eq, int_beq_iff, IsInt64}
use leadertask_userver.Base.Assoc.{find, modify}
use leadertask_userver.Storage.Status.{TaskStatus, task_status_todo, task_status_to_string}
use leadertask_userver.Storage.Tasks.{
  TaskRecord, TasksStorage, new_storage, create_task, get_by_id, get_by_goal, with_status,
  update_task_status,
}
use leadertask_userver.Storage.Tasks.Views.{
  values, values-append, IsKeyed, of_goal, IsConsistent, new_storage-IsConsistent,
  create_task-IsConsistent, update_task_status-IsConsistent, find_fresh, emplace_fresh, found_cases,
  update_task_status_found, update_task_status_refused,
}

pub data Command : Type 0 where
  create : (goal_id : ℤ) (title : Bytes) → Command
  get : (id : ℤ) → Command
  list : (goal_id : ℤ) → Command
  update : (goal_id task_id : ℤ) (new_st : TaskStatus) → Command

pub data Reply : Type 0 where
  created : TaskRecord → Reply
  found : Option TaskRecord → Reply
  listed : List TaskRecord → Reply
  updated : Option TaskRecord → Reply

-- The method of a command.
unfoldable pub perform : Command → TasksStorage → Reply × TasksStorage
perform (create g title) s = let (t, s') = create_task g title s in (created t, s')
perform (get id) s = (found (get_by_id id s), s)
perform (list g) s = (listed (get_by_goal g s), s)
perform (update g id st) s = let (t, s') = update_task_status g id st s in (updated t, s')

abbrev pub is_task_of : ℤ → ℤ → TaskRecord → Bool
is_task_of g id t = (t.id == id) && (t.goal_id == g)

abbrev pub set_status : ℤ → ℤ → TaskStatus → TaskRecord → TaskRecord
set_status g id st t = if is_task_of g id t then with_status st t else t

abbrev pub updated_in :
    TaskStatus → List TaskRecord → List TaskRecord → Option TaskRecord → Reply × List TaskRecord
updated_in st rows changed none = (updated none, rows)
updated_in st rows changed (some t) = (updated (some (with_status st t)), changed)

-- The same command on a list of tasks: the ids count the tasks from 1.
unfoldable pub answer : Command → List TaskRecord → Reply × List TaskRecord
unfolding first
answer (create g title) rows =
    let t : TaskRecord = record {
      id = pos (length rows + 1);
      goal_id = g;
      title = title;
      status = task_status_to_string task_status_todo;
    } in
    (created t, rows ++ t ∷ [])
answer (get id) rows = (found (first (λ t. t.id == id) rows), rows)
answer (list g) rows = (listed (filter (of_goal g) rows), rows)
answer (update g id st) rows =
    updated_in st rows (map (set_status g id st) rows) (first (is_task_of g id) rows)

abbrev pub id_of : TaskRecord → ℤ
id_of t = t.id

-- The storage stands for the list.
pub record Represents (s : TasksStorage) (rows : List TaskRecord) : Type 0 where
  pub consistent : IsConsistent s
  pub stored : values s.tasks_by_id ≡ rows
  pub distinct : AreDistinct id_of rows
  pub count : s.next_id ≡ length rows + 1

-- The replies to a sequence of commands.
unfoldable pub perform_all : List Command → TasksStorage → List Reply
unfolding perform
perform_all [] s = []
perform_all (call ∷ calls) s = (perform call s).0 ∷ perform_all calls (perform call s).1

unfoldable pub answer_all : List Command → List TaskRecord → List Reply
unfolding answer
answer_all [] rows = []
answer_all (call ∷ calls) rows = (answer call rows).0 ∷ answer_all calls (answer call rows).1
