-- ===== src/Storage/Status.antt =====
-- `TaskStatus` of src/tasks_storage.hpp and its texts.
use leadertask_userver.Base.{
  ◌≡◌, ◌↔◌, ◌++◌, Bytes, codes, bytes_beq, bytes_beq_iff, Result, ok, err, if◌then◌else◌, arith,
}

pub data TaskStatus : Type 0 where
  task_status_todo task_status_in_progress task_status_done : TaskStatus

abbrev pub todo : Bytes
todo = codes "todo"

abbrev pub in_progress : Bytes
in_progress = codes "in_progress"

abbrev pub done : Bytes
done = codes "done"

-- `TaskStatusToString`.
unfoldable pub task_status_to_string : TaskStatus → Bytes
task_status_to_string task_status_todo = todo
task_status_to_string task_status_in_progress = in_progress
task_status_to_string task_status_done = done

-- `TaskStatusFromString`: another text throws `std::invalid_argument` with this message.
unfoldable pub task_status_from_string : Bytes → Result Bytes TaskStatus
task_status_from_string st =
    if bytes_beq st todo
    then ok task_status_todo
    else if bytes_beq st in_progress
    then ok task_status_in_progress
    else if bytes_beq st done
    then ok task_status_done
    else err (codes "invalid task statuss " ++ st)

-- `TaskStatusFromString` answers a status exactly at the text that `TaskStatusToString` gives for
-- it.
pub task_status_from_string_iff :
    (st : Bytes) (s : TaskStatus)
    → (task_status_from_string st ≡ ok s) ↔ (st ≡ task_status_to_string s)
unfolding task_status_from_string task_status_to_string
task_status_from_string_iff st task_status_todo =
    ground (arith, bytes_beq_iff st todo, bytes_beq_iff st in_progress, bytes_beq_iff st done)
task_status_from_string_iff st task_status_in_progress =
    ground (arith, bytes_beq_iff st todo, bytes_beq_iff st in_progress, bytes_beq_iff st done)
task_status_from_string_iff st task_status_done =
    ground (arith, bytes_beq_iff st todo, bytes_beq_iff st in_progress, bytes_beq_iff st done)
