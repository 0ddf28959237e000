-- ===== src/Views/Tasks/List/Laws.antt =====
-- What src/views/tasks/list.cpp shows of a goal, and to whom.
use leadertask_userver.Base.{
  ℕ, ◌≡◌, refl, sym, ◌∙◌, ap, ◌≢◌, true, false, Option, none, some, List, [], ◌∷◌, ◌++◌, map, Memᴰ,
  ◌↔◌, inl, inr, Bool-cases, Result-cases, Bytes, Result, ok, err,
}
use leadertask_userver.Base.Int.{ℤ, int_eq, int_beq_iff}
use leadertask_userver.Number.{is_digit, stoll, value_of}
use leadertask_userver.Number.Scan.{AllDigits}
use leadertask_userver.Number.ObjectId.{stoll_prefix}
use leadertask_userver.RateLimit.{UserId}
use leadertask_userver.Definitions.{Exception, Goal, Task}
use leadertask_userver.Http.{HttpRequest, reply, reply-injective}
use leadertask_userver.Services.TasksTable.{TasksTable, TaskRow}
use leadertask_userver.Services.GoalsCollection.{GoalsCollection, Document}
use leadertask_userver.Repositories.Tasks.{get_by_goal, as_task}
use leadertask_userver.Repositories.Goals.{get_by_id, as_goal}
use leadertask_userver.Repositories.Goals.Methods.{get_by_id-stored}
use leadertask_userver.Views.Limited.{Clock, State}
use leadertask_userver.Views.Limited.Cases.{limited_value}
use leadertask_userver.Views.Tasks.Stores.{Stores, is_owner}
use leadertask_userver.Views.Tasks.List.{
  check_rate_limit, copy_tasks, respond_or_throw, in_goal, with_number, list_goal, handle,
}

-- The loop copies each task whole.
pub copy_tasks_lem : (tasks : List Task) → copy_tasks tasks ≡ tasks
unfolding copy_tasks
copy_tasks_lem [] = refl
copy_tasks_lem (task ∷ tasks) = ap (λ ts. task ∷ ts) (copy_tasks_lem tasks)

module _ (table : TasksTable) (collection : GoalsCollection) where
  -- A list that was shown to a user for the goal of the path.
  pub record IsShown (request : HttpRequest) (user_id : UserId) (s : Stores table collection)
      (tasks : List Task) : Type 0 where
    pub goal_id : ℤ
    pub number : value_of (stoll (request.get_path_arg "goalId")) ≡ some goal_id
    pub goal : Document
    pub stored : Memᴰ goal (collection.documents s.goals)
    pub named : collection.parse_oid (request.get_path_arg "goalId") ≡ ok goal.oid
    pub owned : goal.user_id ≡ user_id
    pub rows : List TaskRow
    pub read :
        (r : TaskRow) → Memᴰ r rows ↔ (Memᴰ r (table.replica s.tasks) × (r.goal_id ≡ goal_id))
    pub shown : tasks ≡ map as_task rows

  get_by_goal-rows :
      (goal_id : ℤ) (s : Stores table collection) (tasks : List Task)
      → respond_or_throw (get_by_goal table goal_id s.tasks) ≡ reply tasks
      → (rows : List TaskRow) × (table.select_by_goal goal_id s.tasks ≡ ok rows)
        × (tasks ≡ map as_task rows)
  unfolding get_by_goal
  get_by_goal-rows goal_id s tasks h = elim (Result-cases (table.select_by_goal goal_id s.tasks)) [
    | inl (rows, e) ↦ (
      rows,
      e,
      sym (reply-injective (copy_tasks (map as_task rows)) tasks (rw e at h))
          ∙ copy_tasks_lem (map as_task rows),
    )
    | inr (x, e) ↦ cc (rw e at h)
  ]

  pub in_goal_reply :
      (user_id : UserId) (goal_id : ℤ) (found : Result Exception (Option Goal))
      (s : Stores table collection) (tasks : List Task)
      → in_goal table collection user_id goal_id found s ≡ reply tasks
      → (g : Goal) × (found ≡ ok (some g))
        × (is_owner user_id g.user_id ≡ true)
        × (rows : List TaskRow) × (table.select_by_goal goal_id s.tasks ≡ ok rows)
        × (tasks ≡ map as_task rows)
  unfolding in_goal
  in_goal_reply user_id goal_id (err e) s tasks h = cc h
  in_goal_reply user_id goal_id (ok none) s tasks h = cc h
  in_goal_reply user_id goal_id (ok (some g)) s tasks h =
      elim (Bool-cases (is_owner user_id g.user_id)) [
        | inl own ↦
            let (rows, read, shown) = get_by_goal-rows goal_id s tasks (rw own at h) in
            (g, refl, own, rows, read, shown)
        | inr other ↦ cc (rw other at h)
      ]

  with_number-reply :
      (number : Option ℤ) (request : HttpRequest) (user_id : UserId) (s : Stores table collection)
      (tasks : List Task)
      → number ≡ value_of (stoll (request.get_path_arg "goalId"))
      → with_number table collection number request user_id s ≡ reply tasks
      → IsShown request user_id s tasks
  unfolding with_number
  with_number-reply none request user_id s tasks e h = cc h
  with_number-reply (some goal_id) request user_id s tasks e h =
      let (g, found, own, rows, read, shown) = in_goal_reply user_id goal_id _ s tasks h in
      let (d, stored, named, is_d) =
        get_by_id-stored collection (request.get_path_arg "goalId") s.goals g found in
      record {
        goal_id = goal_id;
        number = sym e;
        goal = d;
        stored = stored;
        named = named;
        owned =
            (int_beq_iff d.user_id user_id).0
              (ap (λ (o : Goal). is_owner user_id o.user_id) is_d ∙ own);
        rows = rows;
        read = table.select_by_goal_ok goal_id s.tasks rows read;
        shown = shown;
      }

  -- If the handler replies with a list of tasks, the user is known, the path names a stored goal of that
  -- user, and the list holds, field by field, exactly the rows of the replica whose goal is the number
  -- that `std::stoll` makes of the path argument.
  pub handle-IsShown :
      (clock : Clock) (request : HttpRequest) (context : Option UserId)
      (s : State (Stores table collection)) (tasks : List Task)
      → (handle table collection clock request context s).0 ≡ reply tasks
      → (user_id : UserId) × (context ≡ some user_id) × IsShown request user_id s.store tasks
  unfolding handle list_goal
  handle-IsShown clock request context s tasks h =
      let (user_id, known, same) =
        limited_value check_rate_limit "user_id not found in token" clock
          (list_goal table collection request) s context _ refl h in
      (user_id, known, with_number-reply _ request user_id s.store tasks refl (ap (λ r. r.0) same))

  owner_list :
      (goal_id : ℤ) (request : HttpRequest) (d : Document) (s : Stores table collection)
      → get_by_id collection (request.get_path_arg "goalId") s.goals ≡ ok (some (as_goal d))
      → with_number table collection (some goal_id) request d.user_id s
        ≡ respond_or_throw (get_by_goal table goal_id s.tasks)
  unfolding with_number in_goal
  owner_list goal_id request d s found =
      let own = (int_beq_iff d.user_id d.user_id).1 refl in rw (found, own) refl

  same_list :
      (number : Option ℤ) (request request' : HttpRequest) (d d' : Document)
      (s : Stores table collection)
      → get_by_id collection (request.get_path_arg "goalId") s.goals ≡ ok (some (as_goal d))
      → get_by_id collection (request'.get_path_arg "goalId") s.goals ≡ ok (some (as_goal d'))
      → with_number table collection number request d.user_id s
        ≡ with_number table collection number request' d'.user_id s
  same_list none request request' d d' s found found' = unfold with_number in refl
  same_list (some goal_id) request request' d d' s found found' =
      owner_list goal_id request d s found ∙ sym (owner_list goal_id request' d' s found')

  -- Two goals whose ids begin with the same decimal digits, with another character behind them in both,
  -- show the same list: behind the limit the handler answers the owner of the one and the owner of the
  -- other alike, whoever they are.
  pub list_goal-collides :
      (ds : Bytes) (c c' : ℕ) (t t' : Bytes) (request request' : HttpRequest) (d d' : Document)
      (s : Stores table collection)
      → AllDigits ds
      → ds ≢ []
      → is_digit c ≡ false
      → is_digit c' ≡ false
      → request.get_path_arg "goalId" ≡ ds ++ c ∷ t
      → request'.get_path_arg "goalId" ≡ ds ++ c' ∷ t'
      → get_by_id collection (request.get_path_arg "goalId") s.goals ≡ ok (some (as_goal d))
      → get_by_id collection (request'.get_path_arg "goalId") s.goals ≡ ok (some (as_goal d'))
      → (list_goal table collection request d.user_id s).0
        ≡ (list_goal table collection request' d'.user_id s).0
  unfolding list_goal
  list_goal-collides ds c c' t t' request request' d d' s all some_digit stop stop' p p' found
        found' =
      let same_number =
        ap stoll p ∙ stoll_prefix ds c c' t t' all some_digit stop stop' ∙ ap stoll (sym p') in
      ap (λ n. with_number table collection (value_of n) request d.user_id s) same_number
      ∙ same_list _ request request' d d' s found found'
