-- ===== src/Tests/StorageRuns.antt =====
-- Calls of the three storages in memory, and numbers in texts.
use leadertask_userver.Base.{
  ◌≡◌, ◌↔◌, none, some, List, [], ◌∷◌, Memᴰ, Bytes, codes, arith, bytes_eq,
}
use leadertask_userver.Base.Int.{ℤ, pos, negsuc, int_eq}
use leadertask_userver.Number.{parse_int, to_string}
use leadertask_userver.Number.RoundTrip.{parse_int-to_string}
use leadertask_userver.Storage.Status.{task_status_done}
use leadertask_userver.Storage.Tasks
use leadertask_userver.Storage.Tasks.{TaskRecord, TasksStorage, with_status, write_first}
use leadertask_userver.Storage.Tasks.Spec
use leadertask_userver.Storage.Tasks.Spec.Simulation.{perform_all-answer_all}
use leadertask_userver.Storage.Users
use leadertask_userver.Storage.Users.{UserRecord, UsersStorage}
use leadertask_userver.Storage.Users.Methods.{SignUps, sign_up_all, sign_up_all-IsConsistent}
use leadertask_userver.Storage.Users.Search.{IsWanted, search-mem_iff}
use leadertask_userver.Storage.Users.Spec as UsersSpec
use leadertask_userver.Storage.Users.Spec.Simulation.{perform_all-AllAgree}
use leadertask_userver.Storage.Goals.Spec as GoalsSpec
use leadertask_userver.Storage.Goals.Spec.Simulation.{answer_all-AllAgree}
use leadertask_userver.Storage.Counter.{ids, last}
use leadertask_userver.Storage.Ids.{user_step, task_step, goal_step, IsNumbered, ids-IsNumbered}
use leadertask_userver.Base.Assoc.{Iteration}
use mathlib.Core.List
use mathlib.Core.List.Permᴰ
use leadertask_userver.Storage.Goals
use leadertask_userver.Storage.Goals.{GoalRecord, GoalsStorage}

-- The least `int64_t`.
parse_int-to_string_example :
    parse_int (to_string (negsuc 9223372036854775807)) ≡ some (negsuc 9223372036854775807)
parse_int-to_string_example = parse_int-to_string (negsuc 9223372036854775807) (omega arith)

-- The entries from the last to the first.
abbrev backwards : Iteration Bytes UserRecord
backwards = record { order = List.reverse; permuted = λ m. Permᴰ.reverse m }

abbrev in_order : Iteration ℤ GoalRecord
in_order = record { order = λ m. m; permuted = λ m. Permᴰ.refl m }

abbrev sign_ups : SignUps
sign_ups =
    (codes "ann", codes "p", codes "Anna", codes "Lee")
    ∷ (codes "bob", codes "q", codes "Bob", codes "Ray")
    ∷ (codes "ann", codes "r", codes "X", codes "Y")
    ∷ []

abbrev users : UsersStorage
users = sign_up_all sign_ups Users.new_storage

abbrev anna : UserRecord
anna = record {
  id = pos 1;
  login = codes "ann";
  password = codes "p";
  first_name = codes "Anna";
  last_name = codes "Lee";
}

search-mem_iff_example :
    Memᴰ anna (Users.search backwards none (some (codes "nn")) none users)
    ↔ ((Users.get_by_id (pos 1) users ≡ some anna) × IsWanted none (some (codes "nn")) none anna)
search-mem_iff_example =
    search-mem_iff backwards none (some (codes "nn")) none users anna
      (sign_up_all-IsConsistent sign_ups)

-- The second update names a task of another goal.
abbrev commands : List Spec.Command
commands =
    Spec.create (pos 1) (codes "a")
    ∷ Spec.create (pos 2) (codes "b")
    ∷ Spec.update (pos 1) (pos 1) task_status_done
    ∷ Spec.update (pos 1) (pos 2) task_status_done
    ∷ Spec.list (pos 1)
    ∷ Spec.get (pos 2)
    ∷ []

perform_all-answer_all_example :
    Spec.perform_all commands Tasks.new_storage ≡ Spec.answer_all commands []
perform_all-answer_all_example = perform_all-answer_all commands

-- The third sign-up asks for a login that is taken.
abbrev user_commands : List UsersSpec.Command
user_commands =
    UsersSpec.sign_up (codes "ann") (codes "p") (codes "Anna") (codes "Lee")
    ∷ UsersSpec.sign_up (codes "bob") (codes "q") (codes "Hanna") (codes "Ray")
    ∷ UsersSpec.sign_up (codes "ann") (codes "r") (codes "X") (codes "Y")
    ∷ UsersSpec.search_for none (some (codes "nn")) none
    ∷ UsersSpec.by_id (pos 2)
    ∷ []

perform_all-AllAgree_example :
    UsersSpec.AllAgree
      (UsersSpec.perform_all backwards user_commands Users.new_storage)
      (UsersSpec.answer_all user_commands [])
perform_all-AllAgree_example = perform_all-AllAgree backwards user_commands

abbrev goal_commands : List GoalsSpec.Command
goal_commands =
    GoalsSpec.create (codes "run") (codes "far") (pos 5)
    ∷ GoalsSpec.create (codes "read") [] (pos 6)
    ∷ GoalsSpec.by_user (pos 5)
    ∷ GoalsSpec.by_id (pos 2)
    ∷ []

answer_all-AllAgree_example :
    GoalsSpec.AllAgree
      (GoalsSpec.perform_all in_order goal_commands Goals.new_storage)
      (GoalsSpec.answer_all goal_commands [])
answer_all-AllAgree_example = answer_all-AllAgree in_order goal_commands

ids-IsNumbered_example :
    IsNumbered
      (ids (user_step backwards) user_commands Users.new_storage)
      (last (user_step backwards) user_commands Users.new_storage).next_id
    × IsNumbered
        (ids task_step commands Tasks.new_storage)
        (last task_step commands Tasks.new_storage).next_id
    × IsNumbered
        (ids (goal_step in_order) goal_commands Goals.new_storage)
        (last (goal_step in_order) goal_commands Goals.new_storage).next_id
ids-IsNumbered_example =
    ids-IsNumbered backwards in_order user_commands commands goal_commands (omega arith)
      (omega arith) (omega arith)
