-- ===== src/Storage/Tasks/Methods.antt =====
-- What the methods of `TasksStorage` do, on every branch, and what holds after any history of calls.
use leadertask_userver.Base.{
  ◌≡◌, refl, ap, ◌≢◌, Option, none, some, List, [], ◌∷◌, ◌++◌, if◌then◌else◌, Bytes, ◌==◌, arith,
  inl, inr, ◌↔◌,
}
use leadertask_userver.Base.Int.{ℤ, pos, int_eq, int_beq_iff}
use leadertask_userver.Base.Assoc.{find-assign, find-modify, find-emplace}
use leadertask_userver.Storage.Status.{TaskStatus, task_status_todo, task_status_to_string}
use leadertask_userver.Storage.Tasks.{
  TaskRecord, TasksStorage, new_storage, create_task, get_by_id, get_by_goal, with_status,
  write_first, update_task_status,
}
use leadertask_userver.Storage.Tasks.Views.{
  IsConsistent, create_task-IsConsistent, new_storage-IsConsistent, find_fresh,
  update_task_status_found, update_task_status_refused, found_cases,
  update_task_status-IsConsistent, get_by_goal_modified,
}

-- The calls that change the storage.
pub data Call : Type 0 where
  create : (goal_id : ℤ) (title : Bytes) → Call
  update : (goal_id task_id : ℤ) (new_st : TaskStatus) → Call

pub step : Call → TasksStorage → TasksStorage
step (create g title) s = (create_task g title s).1
step (update g id st) s = (update_task_status g id st s).1

unfoldable pub run : List Call → TasksStorage → TasksStorage
unfolding step
run [] s = s
run (c ∷ cs) s = run cs (step c s)

step-IsConsistent : (c : Call) (s : TasksStorage) → IsConsistent s → IsConsistent (step c s)
unfolding step
step-IsConsistent (create g title) s v = create_task-IsConsistent g title s v
step-IsConsistent (update g id st) s v = update_task_status-IsConsistent g id st s v

pub run_from-IsConsistent :
    (cs : List Call) (s : TasksStorage) → IsConsistent s → IsConsistent (run cs s)
unfolding run
run_from-IsConsistent [] s v = v
run_from-IsConsistent (c ∷ cs) s v = run_from-IsConsistent cs (step c s) (step-IsConsistent c s v)

-- After any history of calls the list of each goal is exactly the tasks of the map by id that belong to
-- the goal, in the order of creation, each under its own id, which is one that was handed out.
pub run-IsConsistent : (cs : List Call) → IsConsistent (run cs new_storage)
run-IsConsistent cs = run_from-IsConsistent cs new_storage new_storage-IsConsistent

-- In a consistent storage `CreateTask` returns a task with the status `todo`, which is then found by
-- its id, one that no task had, and stands last in the list of its goal; the lists of the other
-- goals and the tasks under other ids are as before.
pub create_task_lem :
    (g : ℤ) (title : Bytes) (s : TasksStorage)
    → IsConsistent s
    → (get_by_id (pos s.next_id) s ≡ none)
      × ((id : ℤ)
          → get_by_id id (create_task g title s).1
            ≡ (if pos s.next_id == id then some (create_task g title s).0 else get_by_id id s))
      × ((g' : ℤ)
          → get_by_goal g' (create_task g title s).1 ≡ (
              if g == g'
              then get_by_goal g s ++ (create_task g title s).0 ∷ []
              else get_by_goal g' s))
      × ((create_task g title s).0.status ≡ task_status_to_string task_status_todo)
unfolding create_task get_by_id get_by_goal
create_task_lem g title s v =
    let fresh = find_fresh s.next_id s.tasks_by_id v.keyed in
    (
      fresh,
      λ id. find-emplace (pos s.next_id) id (create_task g title s).0 s.tasks_by_id fresh,
      λ g'. rw (find-assign g g') (ground arith),
      refl,
    )

-- `UpdateTaskStatus` of a task that is in the goal returns it with the new status, and so it is then
-- found by its id and in the list of its goal; every other task and every other list is as before.
pub update_task_status_lem :
    (g id : ℤ) (st : TaskStatus) (s : TasksStorage) (t : TaskRecord)
    → get_by_id id s ≡ some t
    → t.goal_id ≡ g
    → ((update_task_status g id st s).0 ≡ some (with_status st t))
      × ((j : ℤ)
          → get_by_id j (update_task_status g id st s).1
            ≡ (if id == j then some (with_status st t) else get_by_id j s))
      × ((g' : ℤ)
          → get_by_goal g' (update_task_status g id st s).1
            ≡ (if g == g' then write_first id st (get_by_goal g' s) else get_by_goal g' s))
unfolding get_by_id
update_task_status_lem g id st s t e own = rw (update_task_status_found g id st s t e own) (
  refl,
  λ j. rw (find-modify id j (with_status st) s.tasks_by_id) (ground (arith, int_beq_iff id j)),
  λ g'. unfold get_by_goal in get_by_goal_modified g id st s g',
)

-- `UpdateTaskStatus` gives no task exactly for the ids that are unknown or belong to another goal,
-- and changes nothing then.
pub update_task_status_refuses :
    (g id : ℤ) (st : TaskStatus) (s : TasksStorage)
    → (((update_task_status g id st s).0 ≡ none)
        ↔ ((t : TaskRecord) → get_by_id id s ≡ some t → t.goal_id ≢ g))
      × ((update_task_status g id st s).0 ≡ none → (update_task_status g id st s).1 ≡ s)
unfolding get_by_id
update_task_status_refuses g id st s = elim (found_cases g id st s) [
  | inl (t, e, own) ↦
      let wrote =
        ap (λ (r : Option TaskRecord × TasksStorage). r.0)
          (update_task_status_found g id st s t e own) in
      ((λ h. cc (h, wrote), λ no_task. absurd (no_task t e own)), λ h. cc (h, wrote))
  | inr other ↦
      let same = update_task_status_refused g id st s other in
      ((λ h. other, λ no_task. rw same), λ h. rw same)
]
