-- ===== src/Tests/World.antt =====
-- Stores, requests and bodies for the runs of the handlers.
use Prim.Native.Char.{code}
use Prim.Native.String.{String}
use leadertask_userver.Base.{
  refl, false, List, [], ◌∷◌, if◌then◌else◌, Bytes, codes, Result, ok, nat_beq, arith,
}
use leadertask_userver.Base.Int.{pos}
use leadertask_userver.RateLimit.{UserId}
use leadertask_userver.Definitions.{
  Exception, CreateTaskRequestBody, CreateTaskResponseBody, UpdateTaskStatusRequest, Task,
}
use leadertask_userver.Http.{HttpRequest}
use leadertask_userver.Storage.Status.{todo, done}
use leadertask_userver.Services.GoalsCollection.{Document, null}
use leadertask_userver.Views.Limited.{Clock, State}
use leadertask_userver.Views.Tasks.Stores.{Stores}
use leadertask_userver.Tests.Tasks.{memory_tasks, TaskRows}
use leadertask_userver.Tests.Goals.{memory_goals}

abbrev pub owner : UserId
owner = pos 5

-- A goal whose id is the number 1 to its end, and two whose ids begin with 7.
abbrev pub oid_1 : Bytes
oid_1 = codes "000000000000000000000001"

abbrev pub oid_7a : Bytes
oid_7a = codes "7a0000000000000000000000"

abbrev pub oid_7b : Bytes
oid_7b = codes "7b0000000000000000000000"

abbrev pub goal_of : Bytes → UserId → Document
goal_of oid user_id = record {
  oid = oid;
  title = codes "plan";
  user_id = user_id;
  description = null;
}

abbrev pub some_rows : TaskRows
some_rows = record {
  next = 2;
  rows = record { id = pos 1; goal_id = pos 1; title = codes "write"; status = todo } ∷ [];
  below = ((1, refl, omega arith), tt);
}

abbrev pub start : State (Stores memory_tasks memory_goals)
start = record {
  limits = [];
  store = record {
    tasks = some_rows;
    goals = goal_of oid_1 owner ∷ goal_of oid_7a owner ∷ goal_of oid_7b (pos 6) ∷ [];
  };
}

abbrev pub clock : Clock
clock = record { now = 10; created = 10 }

-- The arguments `goalId` and `taskId`.
abbrev pub path_args : Bytes → Bytes → String → Bytes
path_args goal task String.[] = []
path_args goal task (String.◌∷◌ c s) = if nat_beq (code c) b'g' then goal else task

abbrev pub request_of : Bytes → Bytes → HttpRequest
request_of goal task = record {
  get_header = λ name. [];
  get_arg = λ name. [];
  has_arg = λ name. false;
  get_path_arg = path_args goal task;
}

abbrev pub new_task : CreateTaskRequestBody
new_task = record { title = codes "read" }

abbrev pub created : CreateTaskResponseBody
created = record { id = pos 2; goal_id = pos 1; title = codes "read"; status = todo }

abbrev pub parsed_status : Result Exception UpdateTaskStatusRequest
parsed_status = ok (record { status = done })

abbrev pub updated : CreateTaskResponseBody
updated = record { id = pos 1; goal_id = pos 1; title = codes "write"; status = done }

abbrev pub shown : List Task
shown = record { id = pos 1; goal_id = pos 1; title = codes "write"; status = todo } ∷ []
