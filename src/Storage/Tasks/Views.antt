-- ===== src/Storage/Tasks/Views.antt =====
-- The two maps of `TasksStorage` hold the same tasks: an invariant of its methods.
use mathlib.Core.List.{append-nil}
use leadertask_userver.Base.{
  ℕ, suc, ◌+◌, ◌<◌, ◌≡◌, refl, sym, ◌∙◌, ap, ◌≢◌, Bool, none, some, List, [], ◌∷◌, ◌++◌,
  if◌then◌else◌, Bytes, ◌==◌, filter, arith, Bool-cases, Option-cases, subst, ◌⊎◌, inl, inr, beq_ne,
  ne_of_beq, filter-append,
}
use leadertask_userver.Base.Int.{ℤ, pos, int_eq, int_beq_iff}
use leadertask_userver.Base.Assoc.{find, emplace, modify, find-assign, find-modify}
use leadertask_userver.Storage.Status.{TaskStatus}
use leadertask_userver.Storage.Tasks.{
  TaskRecord, TasksStorage, new_storage, or_empty, create_task, get_by_goal, with_status,
  write_first, update_task_status,
}

abbrev pub values : List (ℤ × TaskRecord) → List TaskRecord
values [] = []
values ((k, t) ∷ m) = t ∷ values m

-- Each task stands under its own id, and every id has been handed out.
abbrev pub IsKeyed : ℕ → List (ℤ × TaskRecord) → Type 0
IsKeyed next [] = Unit
IsKeyed next ((k, t) ∷ m) = (t.id ≡ k) × ((n : ℕ) × (k ≡ pos n) × (n < next)) × IsKeyed next m

abbrev pub of_goal : ℤ → TaskRecord → Bool
of_goal goal_id t = t.goal_id == goal_id

-- The list of a goal is the tasks of `tasks_by_id` with that goal, in the order of their creation.
pub record IsConsistent (s : TasksStorage) : Type 0 where
  pub keyed : IsKeyed s.next_id s.tasks_by_id
  pub same_tasks : (g : ℤ) → get_by_goal g s ≡ filter (of_goal g) (values s.tasks_by_id)

IsKeyed-mono : (a b : ℕ) (m : List (ℤ × TaskRecord)) → a < suc b → IsKeyed a m → IsKeyed b m
IsKeyed-mono a b [] h k = tt
IsKeyed-mono a b ((j, t) ∷ m) h (e, (n, f, l), k) = (e, (n, f, omega arith), IsKeyed-mono a b m h k)

pub find_fresh : (next : ℕ) (m : List (ℤ × TaskRecord)) → IsKeyed next m → find (pos next) m ≡ none
unfolding find
find_fresh next [] k = refl
find_fresh next ((j, t) ∷ m) (e, (n, f, l), k) =
    ground (arith, int_beq_iff j (pos next), find_fresh next m k)

pub emplace_fresh :
    (k : ℤ) (t : TaskRecord) (m : List (ℤ × TaskRecord))
    → find k m ≡ none
    → emplace k t m ≡ m ++ (k, t) ∷ []
unfolding find emplace
emplace_fresh k t [] h = refl
emplace_fresh k t ((j, u) ∷ m) h = ground (arith, emplace_fresh k t m)

pub values-append : (m n : List (ℤ × TaskRecord)) → values (m ++ n) ≡ values m ++ values n
values-append [] n = refl
values-append ((k, t) ∷ m) n = cc (values-append m n)

IsKeyed-append :
    (next : ℕ) (m n : List (ℤ × TaskRecord))
    → IsKeyed next m
    → IsKeyed next n
    → IsKeyed next (m ++ n)
IsKeyed-append next [] n h k = k
IsKeyed-append next ((j, t) ∷ m) n (e, b, h) k = (e, b, IsKeyed-append next m n h k)

pub new_storage-IsConsistent : IsConsistent new_storage
unfolding get_by_goal find filter
new_storage-IsConsistent = record { keyed = tt; same_tasks = λ g. refl }

create_task-same_tasks :
    (g : ℤ) (title : Bytes) (s : TasksStorage) (g' : ℤ)
    → find (pos s.next_id) s.tasks_by_id ≡ none
    → get_by_goal g s ≡ filter (of_goal g) (values s.tasks_by_id)
    → get_by_goal g' s ≡ filter (of_goal g') (values s.tasks_by_id)
    → get_by_goal g' (create_task g title s).1
      ≡ filter (of_goal g') (values (create_task g title s).1.tasks_by_id)
unfolding create_task get_by_goal filter
create_task-same_tasks g title s g' fresh same same' =
    rw
      (
        find-assign g g',
        emplace_fresh (pos s.next_id) (create_task g title s).0 s.tasks_by_id fresh,
        values-append s.tasks_by_id ((pos s.next_id, (create_task g title s).0) ∷ []),
        filter-append (of_goal g') (values s.tasks_by_id) ((create_task g title s).0 ∷ []),
      )
      (elim (Bool-cases (g == g')) [
        | inl here ↦ rw here (
            ap (λ ts. ts ++ (create_task g title s).0 ∷ [])
              (same
                ∙ ap (λ v. filter (of_goal v) (values s.tasks_by_id)) ((int_beq_iff g g').0 here)))
        | inr away ↦ rw away (same' ∙ sym (append-nil _))
      ])

pub create_task-IsConsistent :
    (g : ℤ) (title : Bytes) (s : TasksStorage)
    → IsConsistent s
    → IsConsistent (create_task g title s).1
unfolding create_task get_by_goal
create_task-IsConsistent g title s v =
    let fresh = find_fresh s.next_id s.tasks_by_id v.keyed in
    record {
      keyed = rw (emplace_fresh (pos s.next_id) _ s.tasks_by_id fresh) (
          IsKeyed-append (s.next_id + 1) s.tasks_by_id _
            (IsKeyed-mono s.next_id (s.next_id + 1) s.tasks_by_id (omega arith) v.keyed)
            (refl, (s.next_id, refl, omega arith), tt));
      same_tasks =
          λ g'. create_task-same_tasks g title s g' fresh (v.same_tasks g) (v.same_tasks g');
    }

-- A write to the task that `find` reached.
module _ (k : ℤ) (st : TaskStatus) where
  filter-modify_self :
      (next : ℕ) (g : ℤ) (t : TaskRecord) (m : List (ℤ × TaskRecord))
      → IsKeyed next m
      → find k m ≡ some t
      → t.goal_id ≡ g
      → filter (of_goal g) (values (modify k (with_status st) m))
        ≡ write_first k st (filter (of_goal g) (values m))
  unfolding find modify filter write_first
  filter-modify_self next g t [] h e own = cc
  filter-modify_self next g t ((j, u) ∷ m) (i, b, h) e own = ground (
    arith,
    int_beq_iff j k,
    int_beq_iff u.id k,
    int_beq_iff u.goal_id g,
    filter-modify_self next g t m h,
  )

  filter-modify_other :
      (g : ℤ) (t : TaskRecord) (m : List (ℤ × TaskRecord))
      → find k m ≡ some t
      → t.goal_id ≢ g
      → filter (of_goal g) (values (modify k (with_status st) m)) ≡ filter (of_goal g) (values m)
  unfolding find modify filter
  filter-modify_other g t [] e other = cc
  filter-modify_other g t ((j, u) ∷ m) e other =
      ground (arith, int_beq_iff j k, int_beq_iff u.goal_id g, filter-modify_other g t m)

  IsKeyed-modify :
      (next : ℕ) (m : List (ℤ × TaskRecord))
      → IsKeyed next m
      → IsKeyed next (modify k (with_status st) m)
  unfolding modify
  IsKeyed-modify next [] h = tt
  IsKeyed-modify next ((j, u) ∷ m) (i, b, h) = elim (Bool-cases (j == k)) [
    | inl same ↦ rw same (i, b, h)
    | inr other ↦ rw other (i, b, IsKeyed-modify next m h)
  ]

module _ (g task_id : ℤ) (st : TaskStatus) (s : TasksStorage) where
  -- The write of `UpdateTaskStatus`, when it finds the task `t` in the goal `g`.
  pub update_task_status_found :
      (t : TaskRecord)
      → find task_id s.tasks_by_id ≡ some t
      → t.goal_id ≡ g
      → update_task_status g task_id st s ≡ (
        some (with_status st t),
        record s {
          tasks_by_id = modify task_id (with_status st) s.tasks_by_id;
          tasks_by_goal = modify g (write_first task_id st) s.tasks_by_goal;
        },
      )
  unfolding update_task_status
  update_task_status_found t e own = rw (e, update_task_status, (int_beq_iff t.goal_id g).1 own)

  pub update_task_status_refused :
      ((t : TaskRecord) → find task_id s.tasks_by_id ≡ some t → t.goal_id ≢ g)
      → update_task_status g task_id st s ≡ (none, s)
  unfolding update_task_status
  update_task_status_refused h = elim (Option-cases (find task_id s.tasks_by_id)) [
    | inl missing ↦ rw (missing, update_task_status)
    | inr (t, e) ↦ rw (e, update_task_status, beq_ne t.goal_id g (h t e))
  ]

  -- Whether the task is there, in the goal.
  pub found_cases :
      ((t : TaskRecord) × (find task_id s.tasks_by_id ≡ some t) × (t.goal_id ≡ g))
      ⊎ ((t : TaskRecord) → find task_id s.tasks_by_id ≡ some t → t.goal_id ≢ g)
  found_cases = elim (Option-cases (find task_id s.tasks_by_id)) [
    | inl missing ↦ inr (λ t e. cc)
    | inr (t, e) ↦ elim (Bool-cases (t.goal_id == g)) [
      | inl own ↦ inl (t, e, (int_beq_iff t.goal_id g).0 own)
      | inr other ↦ inr (λ u f.
          let same : t ≡ u = cc in subst (λ w. w.goal_id ≢ g) same (ne_of_beq t.goal_id g other))
    ]
  ]

  pub get_by_goal_modified :
      (g' : ℤ)
      → or_empty (find g' (modify g (write_first task_id st) s.tasks_by_goal))
        ≡ (if g == g' then write_first task_id st (get_by_goal g' s) else get_by_goal g' s)
  unfolding get_by_goal write_first
  get_by_goal_modified g' =
      rw (find-modify g g' (write_first task_id st) s.tasks_by_goal) (ground arith)

  modified_same_tasks :
      (t : TaskRecord)
      → find task_id s.tasks_by_id ≡ some t
      → t.goal_id ≡ g
      → IsConsistent s
      → (g' : ℤ)
      → get_by_goal g' (record s {
        tasks_by_id = modify task_id (with_status st) s.tasks_by_id;
        tasks_by_goal = modify g (write_first task_id st) s.tasks_by_goal;
      })
        ≡ filter (of_goal g') (values (modify task_id (with_status st) s.tasks_by_id))
  unfolding get_by_goal
  modified_same_tasks t e own v g' = get_by_goal_modified g' ∙ elim (Bool-cases (g == g')) [
    | inl here ↦
        let same : g ≡ g' = (int_beq_iff g g').0 here in
        rw here (
          ap (write_first task_id st) (v.same_tasks g')
          ∙ sym (filter-modify_self task_id st s.next_id g' t s.tasks_by_id v.keyed e (own ∙ same)))
    | inr away ↦ rw away (
        v.same_tasks g'
        ∙ sym (
            filter-modify_other task_id st g' t s.tasks_by_id e
              (λ f. ne_of_beq g g' away (sym own ∙ f))))
  ]

  pub update_task_status-IsConsistent :
      IsConsistent s → IsConsistent (update_task_status g task_id st s).1
  update_task_status-IsConsistent v = elim found_cases [
    | inl (t, e, own) ↦ rw (update_task_status_found t e own) (record {
      keyed = IsKeyed-modify task_id st s.next_id s.tasks_by_id v.keyed;
      same_tasks = λ g'. modified_same_tasks t e own v g';
    })
    | inr h ↦ rw (update_task_status_refused h) v
  ]
