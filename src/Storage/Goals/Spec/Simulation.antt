-- ===== src/Storage/Goals/Spec/Simulation.antt =====
-- `GoalsStorage` of src/goals_storage.hpp answers as the list of goals does.
use leadertask_userver.Base.{
  ◌≡◌, refl, sym, ◌∙◌, ap, subst, ◌+◌, List, [], ◌∷◌, ◌++◌, Bytes, ◌==◌, first, filter,
  filter-Permᴰ, length, length-append, Permᴰ,
}
use leadertask_userver.Base.Int.{ℤ, pos, int_eq}
use leadertask_userver.Base.Assoc.{Iteration}
use leadertask_userver.Base.Assoc.Entries.{
  values, values-append, values-Permᴰ, find-values, emplace_fresh,
}
use leadertask_userver.Storage.Goals.{
  GoalRecord, GoalsStorage, new_storage, create_goal, get_by_id, get_goals_by_user,
}
use leadertask_userver.Storage.Goals.Methods.{
  IsConsistent, create_goal-IsConsistent, find_fresh, collect-filter,
}
use leadertask_userver.Storage.Goals.Spec.{
  Command, create, by_id, by_user, Reply, created, found, perform, answer, Agree, AllAgree,
  perform_all, answer_all,
}

-- The storage stands for the list.
record Represents (s : GoalsStorage) (rows : List GoalRecord) : Type 0 where
  consistent : IsConsistent s
  stored : values s.goals_by_id ≡ rows
  count : s.next_id ≡ length rows + 1

abbrev Simulates : Reply × GoalsStorage → Reply × List GoalRecord → Type 0
Simulates (r, s) (q, rows) = Agree r q × Represents s rows

module _ (it : Iteration ℤ GoalRecord) (s : GoalsStorage) (rows : List GoalRecord)
    (v : Represents s rows) where
  create-Simulates :
      (title description : Bytes) (user_id : ℤ)
      → Simulates
          (perform it (create title description user_id) s)
          (answer (create title description user_id) rows)
  unfolding perform answer create_goal
  create-Simulates title description user_id =
      let goal = (create_goal title description user_id s).0 in
      let no_id = find_fresh s.next_id s.goals_by_id v.consistent.fresh in
      (
        ap (λ n. created (record goal { id = pos n })) v.count,
        record {
          consistent = create_goal-IsConsistent title description user_id s v.consistent;
          stored =
              ap values (emplace_fresh (pos s.next_id) goal s.goals_by_id no_id)
              ∙ values-append s.goals_by_id ((pos s.next_id, goal) ∷ [])
              ∙ (λ i. v.stored i ++ record goal { id = pos (v.count i) } ∷ []);
          count = ap (λ n. n + 1) (v.count ∙ sym (length-append rows (_ ∷ [])));
        },
      )

  perform-Simulates : (call : Command) → Simulates (perform it call s) (answer call rows)
  unfolding perform answer get_by_id get_goals_by_user
  perform-Simulates (create title description user_id) = create-Simulates title description user_id
  perform-Simulates (by_id id) = (
    ap (λ o. found o)
        (find-values (λ g. g.id) id s.goals_by_id v.consistent.own_id
          ∙ ap (first (λ g. g.id == id)) v.stored),
    v,
  )
  perform-Simulates (by_user user_id) =
      let test = λ (g : GoalRecord). g.user_id == user_id in
      let met = it.order s.goals_by_id in
      let perm : Permᴰ (filter test (values met)) (filter test (values s.goals_by_id)) =
        filter-Permᴰ test _ _ (values-Permᴰ met s.goals_by_id (it.permuted s.goals_by_id)) in
      (
        rw (collect-filter user_id met)
            (∣ subst (λ gs. Permᴰ (filter test (values met)) (filter test gs)) v.stored perm ∣₁),
        v,
      )

perform_all_from :
    (it : Iteration ℤ GoalRecord) (calls : List Command) (s : GoalsStorage) (rows : List GoalRecord)
    → Represents s rows
    → AllAgree (perform_all it calls s) (answer_all calls rows)
unfolding perform_all answer_all
perform_all_from it [] s rows v = tt
perform_all_from it (call ∷ calls) s rows v =
    let (same, next) = perform-Simulates it s rows v call in
    (same, perform_all_from it calls _ _ next)

-- To any sequence of calls of its three methods a new storage gives the replies that a list of goals gives, whatever
-- the order of iteration is: a creation appends a goal whose id is its place, a lookup gives the first with
-- the id, and the goals of a user are those with that owner, in some order.
pub answer_all-AllAgree :
    (it : Iteration ℤ GoalRecord) (calls : List Command)
    → AllAgree (perform_all it calls new_storage) (answer_all calls [])
answer_all-AllAgree it calls = perform_all_from it calls new_storage [] (record {
  consistent = record { own_id = tt; fresh = tt; ids = tt };
  stored = refl;
  count = refl;
})
