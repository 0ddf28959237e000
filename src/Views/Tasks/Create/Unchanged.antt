-- ===== src/Views/Tasks/Create/Unchanged.antt =====
-- When src/views/tasks/create.cpp changes nothing.
use leadertask_userver.Base.{
  ◌≡◌, refl, sym, ◌∙◌, ap, Bool, true, false, Option, none, some, inl, inr, Bool-cases,
  Result-cases, Bytes, is_empty, Result, ok, err,
}
use leadertask_userver.Base.Int.{ℤ, int_eq}
use leadertask_userver.RateLimit.{UserId}
use leadertask_userver.Definitions.{Exception, Goal, CreateTaskRequestBody}
use leadertask_userver.Http.{HttpRequest, Outcome, Payload, error, value}
use leadertask_userver.Services.TasksTable.{TasksTable}
use leadertask_userver.Services.GoalsCollection.{GoalsCollection}
use leadertask_userver.Repositories.Tasks.{create_task}
use leadertask_userver.Views.Limited.{Clock, State, limited}
use leadertask_userver.Views.Limited.Cases.{limited_cases}
use leadertask_userver.Views.Tasks.Stores.{Stores, is_owner}
use leadertask_userver.Views.Tasks.Create.{
  check_rate_limit, insert_task, in_goal, with_number, create_in_goal, handle,
}

abbrev is_error {ℓ} : {A : Type ℓ} → Payload A → Bool
is_error (error msg) = true
is_error (value a) = false

-- The handler has answered with an error: it has neither replied with a body of its own type nor thrown.
abbrev pub is_refusal {ℓ} : {A : Type ℓ} → Outcome A → Bool
is_refusal (ok r) = is_error r.payload
is_refusal (err e) = false

module _ (table : TasksTable) (collection : GoalsCollection) where
  unchanged_in_goal :
      (user_id : UserId) (goal_id : ℤ) (title : Bytes) (found : Result Exception (Option Goal))
      (s : Stores table collection)
      → is_refusal (in_goal table collection user_id goal_id title found s).0 ≡ true
      → (in_goal table collection user_id goal_id title found s).1 ≡ s
  unfolding in_goal insert_task create_task
  unchanged_in_goal user_id goal_id title (err e) s refused = cc
  unchanged_in_goal user_id goal_id title (ok none) s refused = refl
  unchanged_in_goal user_id goal_id title (ok (some g)) s refused =
      elim (Bool-cases (is_owner user_id g.user_id)) [
        | inl own ↦ elim (Result-cases (table.insert goal_id title s.tasks).0) [
          | inl (rows, e) ↦
              let (row, one, _) = table.insert_ok goal_id title s.tasks rows e in
              cc (rw (own, e, one) at refused)
          | inr (x, e) ↦ cc (rw (own, e) at refused)
        ]
        | inr other ↦ rw other refl
      ]

  unchanged_with_number :
      (number : Option ℤ) (request : HttpRequest) (body : CreateTaskRequestBody) (user_id : UserId)
      (s : Stores table collection)
      → is_refusal (with_number table collection number request body user_id s).0 ≡ true
      → (with_number table collection number request body user_id s).1 ≡ s
  unfolding with_number
  unchanged_with_number none request body user_id s refused = refl
  unchanged_with_number (some goal_id) request body user_id s refused =
      unchanged_in_goal user_id goal_id body.title _ s refused

  limited_refused :
      (clock : Clock) (request : HttpRequest) (body : CreateTaskRequestBody)
      (context : Option UserId) (s : State (Stores table collection))
      → is_refusal
          (limited check_rate_limit "user_id not found in token" clock context
            (create_in_goal table collection request body)
            s).0
        ≡ true
      → (limited check_rate_limit "user_id not found in token" clock context
          (create_in_goal table collection request body)
          s).1.store
        ≡ s.store
  unfolding create_in_goal
  limited_refused clock request body context s refused =
      elim (limited_cases check_rate_limit "user_id not found in token" clock
        (create_in_goal table collection request body) s context) [
          | inl p ↦
              ap (λ r. r.1.store) p.result
              ∙ unchanged_with_number _ request body p.user_id s.store
                  (ap (λ r. is_refusal r.0) (sym p.result) ∙ refused)
          | inr q ↦ q.store
        ]

  -- A request that the handler answers with an error, of any status, leaves the tables and the collection as they
  -- are. After an exception it may not be known whether the task was inserted.
  pub handle-unchanged :
      (clock : Clock) (request : HttpRequest) (body : Result Exception CreateTaskRequestBody)
      (context : Option UserId) (s : State (Stores table collection))
      → is_refusal (handle table collection clock request body context s).0 ≡ true
      → (handle table collection clock request body context s).1.store ≡ s.store
  unfolding handle create_in_goal
  handle-unchanged clock request (err e) context s refused = cc
  handle-unchanged clock request (ok body) context s refused =
      elim (Bool-cases (is_empty body.title)) [
        | inl blank ↦ rw blank refl
        | inr titled ↦
            rw titled (limited_refused clock request body context s (rw titled at refused))
      ]
