-- ===== src/Tests/Server.antt =====
-- The whole server on the services in memory.
use leadertask_userver.Base.{◌≡◌, ◌↔◌, refl, Bool, true, false, [], ◌∷◌, ◌++◌, Bytes, codes}
use leadertask_userver.Http.{HttpRequest}
use leadertask_userver.Auth.{
  AuthStatus, accepted, token_not_found, invalid_token, forbidden, algorithm,
}
use leadertask_userver.Server.Defs.{Components, Limits, Server}
use leadertask_userver.Tests.Tasks.{memory_tasks}
use leadertask_userver.Tests.Goals.{memory_goals}
use leadertask_userver.Tests.Users.{memory_users, open_tokens}
use leadertask_userver.Tests.ServiceRuns.{db}
use leadertask_userver.Tests.World.{owner, oid_1, goal_of, start, path_args}

abbrev pub is_accepted : AuthStatus → Bool
is_accepted accepted = true
is_accepted _ = false

pub is_accepted_iff : (st : AuthStatus) → (is_accepted st ≡ true) ↔ (st ≡ accepted)
is_accepted_iff accepted = (λ e. refl, λ e. refl)
is_accepted_iff token_not_found = (λ e. cc e, λ e. cc e)
is_accepted_iff invalid_token = (λ e. cc e, λ e. cc e)
is_accepted_iff forbidden = (λ e. cc e, λ e. cc e)

abbrev pub components : Components
components = record {
  users = memory_users;
  tasks = memory_tasks;
  goals = memory_goals;
  tokens = open_tokens;
  login_secret = codes "key";
  checker_secret = codes "key";
  continues = λ result. is_accepted result.status;
  continues_iff = λ result. is_accepted_iff result.status;
}

abbrev pub no_limits : Limits
no_limits = record {
  search = [];
  create_goal = [];
  list_goals = [];
  create_task = [];
  update_task_status = [];
  list_tasks = [];
}

abbrev pub server : Server components
server = record {
  limits = no_limits;
  stored = record { users = db; tasks = start.store.tasks; goals = goal_of oid_1 owner ∷ [] };
}

-- A request for the first goal and the first task, with the token given.
abbrev pub http_of : Bytes → HttpRequest
http_of token = record {
  get_header = λ name. algorithm ++ token;
  get_arg = λ name. [];
  has_arg = λ name. false;
  get_path_arg = path_args oid_1 (codes "1");
}
