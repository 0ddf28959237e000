-- ===== src/Storage/Goals/Spec.antt =====
-- What `GoalsStorage` of src/goals_storage.hpp promises: it answers every call as one list of goals does, in the
-- order of their creation, but for the order in which the goals of a user are given.
pub mod Simulation
use leadertask_userver.Base.{
  ◌≡◌, ℕ, ◌+◌, Bool, Option, none, some, List, [], ◌∷◌, ◌++◌, Bytes, ◌==◌, first, filter, length,
  Perm,
}
use leadertask_userver.Base.Int.{ℤ, pos, int_eq}
use leadertask_userver.Base.Assoc.{Iteration}
use leadertask_userver.Storage.Goals.{
  GoalRecord, GoalsStorage, create_goal, get_by_id, get_goals_by_user,
}

pub data Command : Type 0 where
  create : (title description : Bytes) (user_id : ℤ) → Command
  by_id : (id : ℤ) → Command
  by_user : (user_id : ℤ) → Command

pub data Reply : Type 0 where
  created : GoalRecord → Reply
  found : Option GoalRecord → Reply
  goals : List GoalRecord → Reply

-- The method of a command.
unfoldable pub perform : Iteration ℤ GoalRecord → Command → GoalsStorage → Reply × GoalsStorage
perform it (create title description user_id) s =
    let (goal, s') = create_goal title description user_id s in (created goal, s')
perform it (by_id id) s = (found (get_by_id id s), s)
perform it (by_user user_id) s = (goals (get_goals_by_user it user_id s), s)

-- The same command on a list of goals: the ids count the goals from 1.
unfoldable pub answer : Command → List GoalRecord → Reply × List GoalRecord
answer (create title description user_id) rows =
    let goal : GoalRecord = record {
      id = pos (length rows + 1);
      title = title;
      description = description;
      user_id = user_id;
    } in
    (created goal, rows ++ goal ∷ [])
answer (by_id id) rows = (found (first (λ g. g.id == id) rows), rows)
answer (by_user user_id) rows = (goals (filter (λ g. g.user_id == user_id) rows), rows)

-- The replies are the same, the goals of a user up to their order.
abbrev pub Agree : Reply → Reply → Type 0
Agree (goals gs) (goals hs) = Perm gs hs
Agree r q = r ≡ q

-- The replies to two sequences of commands.
abbrev pub AllAgree : List Reply → List Reply → Type 0
AllAgree [] [] = Unit
AllAgree (r ∷ rs) (q ∷ qs) = Agree r q × AllAgree rs qs
AllAgree _ _ = ⊥

unfoldable pub perform_all : Iteration ℤ GoalRecord → List Command → GoalsStorage → List Reply
unfolding perform
perform_all it [] s = []
perform_all it (call ∷ calls) s = (perform it call s).0 ∷ perform_all it calls (perform it call s).1

unfoldable pub answer_all : List Command → List GoalRecord → List Reply
unfolding answer
answer_all [] rows = []
answer_all (call ∷ calls) rows = (answer call rows).0 ∷ answer_all calls (answer call rows).1
