-- ===== src/Storage/Tasks/Spec/Simulation.antt =====
-- `TasksStorage` of src/tasks_storage.hpp answers as the list of tasks does.
use leadertask_userver.Base.{
  first, ◌+◌, ◌≡◌, refl, sym, ◌∙◌, ap, Option, none, some, List, [], ◌∷◌, ◌++◌, map, Bytes, ◌==◌,
  filter, inl, inr, length, length-append, AreDistinct, AreDistinct-append, AreDistinct-map, subst,
}
use leadertask_userver.Base.Int.{ℤ, pos, int_eq}
use leadertask_userver.Storage.Status.{TaskStatus}
use leadertask_userver.Storage.Tasks.{TaskRecord, TasksStorage, new_storage, create_task, get_by_id}
use leadertask_userver.Storage.Tasks.Views.{
  values, values-append, of_goal, IsConsistent, new_storage-IsConsistent, create_task-IsConsistent,
  update_task_status-IsConsistent, find_fresh, emplace_fresh, found_cases, update_task_status_found,
  update_task_status_refused,
}
use leadertask_userver.Storage.Tasks.Spec.{
  Command, create, get, list, update, Reply, created, found, listed, perform, is_task_of,
  set_status, answer, id_of, Represents, perform_all, answer_all,
}
use leadertask_userver.Storage.Tasks.Spec.Rows.{
  find-values, new_id, values-modify, first-refused, set_status_id, length-map,
}

-- A command on the storage and on a list that it stands for: the same reply, and again such a list.
abbrev Simulates : Reply × TasksStorage → Reply × List TaskRecord → Type 0
Simulates (r, s) (q, rows) = (r ≡ q) × Represents s rows

module _ (s : TasksStorage) where
  create-Simulates :
      (g : ℤ) (title : Bytes) (rows : List TaskRecord)
      → Represents s rows
      → Simulates (perform (create g title) s) (answer (create g title) rows)
  unfolding perform answer create_task
  create-Simulates g title rows v =
      let new = (create_task g title s).0 in
      let same : new ≡ (record new { id = pos (length rows + 1) }) =
        ap (λ n. record new { id = pos n }) v.count in
      (
        ap (λ t. created t) same,
        record {
          consistent = create_task-IsConsistent g title s v.consistent;
          stored =
              rw
                (emplace_fresh (pos s.next_id) new s.tasks_by_id
                  (find_fresh s.next_id s.tasks_by_id v.consistent.keyed))
                (values-append s.tasks_by_id ((pos s.next_id, new) ∷ [])
                  ∙ (λ i. v.stored i ++ same i ∷ []));
          distinct = AreDistinct-append id_of rows _ v.distinct (λ t m e.
              new_id s.next_id s.tasks_by_id v.consistent.keyed t (rw v.stored m)
                (e ∙ ap pos (sym v.count)));
          count = ap (λ n. n + 1) (v.count ∙ sym (length-append rows (_ ∷ [])));
        },
      )

  update-Simulates :
      (g id : ℤ) (st : TaskStatus) (rows : List TaskRecord)
      → Represents s rows
      → Simulates (perform (update g id st) s) (answer (update g id st) rows)
  unfolding perform answer get_by_id
  update-Simulates g id st rows v =
      let ids : AreDistinct id_of (values s.tasks_by_id) =
        subst (AreDistinct id_of) (sym v.stored) v.distinct in
      elim (found_cases g id st s) [
        | inl (t, e, own) ↦
            let (written, there) =
              values-modify g id st s.next_id t s.tasks_by_id v.consistent.keyed ids e own in
            rw
              (
                update_task_status_found g id st s t e own,
                subst (λ l. first (is_task_of g id) l ≡ some t) v.stored there,
              )
              (
                refl,
                record {
                  consistent =
                      subst IsConsistent
                        (ap (λ (q : Option TaskRecord × TasksStorage). q.1)
                          (update_task_status_found g id st s t e own))
                        (update_task_status-IsConsistent g id st s v.consistent);
                  stored = written ∙ ap (map (set_status g id st)) v.stored;
                  distinct =
                      AreDistinct-map id_of (set_status g id st) rows (set_status_id g id st)
                        v.distinct;
                  count = v.count ∙ ap (λ n. n + 1) (sym (length-map (set_status g id st) rows));
                },
              )
        | inr other ↦
            rw
              (
                update_task_status_refused g id st s other,
                subst (λ l. first (is_task_of g id) l ≡ none) v.stored
                    (first-refused g id st s.next_id s.tasks_by_id v.consistent.keyed ids other),
              )
              (refl, v)
      ]

  perform-Simulates :
      (call : Command) (rows : List TaskRecord)
      → Represents s rows
      → Simulates (perform call s) (answer call rows)
  unfolding perform answer get_by_id
  perform-Simulates (create g title) rows v = create-Simulates g title rows v
  perform-Simulates (get id) rows v = (
    ap (λ o. found o)
        (find-values s.next_id id s.tasks_by_id v.consistent.keyed
          ∙ ap (first (λ t. t.id == id)) v.stored),
    v,
  )
  perform-Simulates (list g) rows v =
      (ap (λ l. listed l) (v.consistent.same_tasks g ∙ ap (filter (of_goal g)) v.stored), v)
  perform-Simulates (update g id st) rows v = update-Simulates g id st rows v

perform_all_from :
    (calls : List Command) (s : TasksStorage) (rows : List TaskRecord)
    → Represents s rows
    → perform_all calls s ≡ answer_all calls rows
unfolding perform_all answer_all
perform_all_from [] s rows v = refl
perform_all_from (call ∷ calls) s rows v =
    let (same, next) = perform-Simulates s call rows v in
    λ i. same i ∷ perform_all_from calls _ _ next i

-- To any sequence of calls of its four methods a new storage gives the replies that a list of tasks gives: a
-- creation appends a task whose id is its place, a lookup gives the first with the id, a listing those of the
-- goal in the order of creation, and an update sets the status of the task with both ids, or gives no task.
pub perform_all-answer_all :
    (calls : List Command) → perform_all calls new_storage ≡ answer_all calls []
perform_all-answer_all calls =
    perform_all_from calls new_storage []
      (record { consistent = new_storage-IsConsistent; stored = refl; distinct = tt; count = refl })
