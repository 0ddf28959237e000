-- ===== src/Server/Invariants.antt =====
-- What every request keeps of the databases, by induction on the steps of the specification.
use leadertask_userver.Base.{
  ◌≡◌, refl, List, [], ◌∷◌, Bytes, Bool-cases, inl, inr, All-append, AreDistinct,
  AreDistinct-append, AreDistinct-map,
}
use leadertask_userver.Base.Int.{ℤ}
use leadertask_userver.Services.TasksTable.{TaskRow, is_task_of, set_status}
use leadertask_userver.Services.UsersTable.{UserRow}
use leadertask_userver.Services.GoalsCollection.{Document}
use leadertask_userver.Views.Tasks.Statuses.{AllStatus, map-AllStatus}
use leadertask_userver.Server.Defs.{Components, Request, Server}
use leadertask_userver.Server.Dispatch.{serve_all}
use leadertask_userver.Server.Steps.{
  Snapshot, snapshot, RequestStep, idle, user_added, goal_added, task_added, status_set, Reach,
  start, next,
}
use leadertask_userver.Server.Runs.{serve_all-Reach}

abbrev pub user_id_of : UserRow → ℤ
user_id_of r = r.id

abbrev pub login_of : UserRow → Bytes
login_of r = r.login

abbrev pub task_id_of : TaskRow → ℤ
task_id_of r = r.id

abbrev pub oid_of : Document → Bytes
oid_of d = d.oid

-- The ids and the logins are unique, and every status is one of the three.
pub record IsWellFormed (v : Snapshot) : Type 0 where
  pub user_ids : AreDistinct user_id_of v.users
  pub logins : AreDistinct login_of v.users
  pub task_ids : AreDistinct task_id_of v.tasks
  pub statuses : AllStatus v.tasks
  pub oids : AreDistinct oid_of v.goals

set_status_id :
    (id goal_id : ℤ) (st : Bytes) (r : TaskRow)
    → task_id_of (set_status id goal_id st r) ≡ task_id_of r
set_status_id id goal_id st r = elim (Bool-cases (is_task_of id goal_id r)) [
  | inl own ↦ rw own refl
  | inr other ↦ rw other refl
]

Step-IsWellFormed :
    (c : Components) (r : Request) (v w : Snapshot)
    → RequestStep c r v w
    → IsWellFormed v
    → IsWellFormed w
Step-IsWellFormed c r v _ idle h = h
Step-IsWellFormed c r v _ (user_added row new fresh) h = record {
  user_ids = AreDistinct-append user_id_of v.users row h.user_ids (λ q m. (fresh q m).0);
  logins = AreDistinct-append login_of v.users row h.logins (λ q m. (fresh q m).1);
  task_ids = h.task_ids;
  statuses = h.statuses;
  oids = h.oids;
}
Step-IsWellFormed c r v _ (goal_added doc new fresh) h = record {
  user_ids = h.user_ids;
  logins = h.logins;
  task_ids = h.task_ids;
  statuses = h.statuses;
  oids = AreDistinct-append oid_of v.goals doc h.oids fresh;
}
Step-IsWellFormed c r v _ (task_added row may new fresh) h = record {
  user_ids = h.user_ids;
  logins = h.logins;
  oids = h.oids;
  task_ids = AreDistinct-append task_id_of v.tasks row h.task_ids fresh;
  statuses = All-append _ v.tasks (row ∷ []) h.statuses (inl new, tt);
}
Step-IsWellFormed c r v _ (status_set goal_id task_id body may valid) h = record {
  user_ids = h.user_ids;
  logins = h.logins;
  oids = h.oids;
  task_ids =
      AreDistinct-map task_id_of (set_status goal_id task_id body.status) v.tasks
        (set_status_id goal_id task_id body.status) h.task_ids;
  statuses = map-AllStatus goal_id task_id body.status v.tasks valid h.statuses;
}

pub Reach-IsWellFormed :
    (c : Components) (rs : List Request) (v w : Snapshot)
    → Reach c rs v w
    → IsWellFormed v
    → IsWellFormed w
Reach-IsWellFormed c _ v _ start h = h
Reach-IsWellFormed c (r ∷ rs) v w (next {w = u} step after) h =
    Reach-IsWellFormed c rs u w after (Step-IsWellFormed c r v u step h)

-- If no id, no login and no object id stands twice in the databases and every status is one of the three, so it
-- is after any sequence of requests to the server, from whoever they come and however they are answered.
pub serve_all-IsWellFormed :
    (c : Components) (rs : List Request) (s : Server c)
    → IsWellFormed (snapshot c s.stored)
    → IsWellFormed (snapshot c (serve_all c rs s).stored)
serve_all-IsWellFormed c rs s h = Reach-IsWellFormed c rs _ _ (serve_all-Reach c rs s) h
