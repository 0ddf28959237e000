-- ===== src/Tests/ServiceRuns.antt =====
-- Requests to the handlers of src/views/users and src/views/goals, and the token of a login.
use Prim.Native.Char.{code}
use Prim.Native.String.{String}
use leadertask_userver.Base.{
  ◌≡◌, ◌≢◌, refl, ℕ, Bool, true, false, Option, none, some, List, [], ◌∷◌, ◌++◌, Memᴰ, Bytes, codes,
  Result, ok, err, arith, inl, inr, is_empty, All-mem, nat_beq, if◌then◌else◌,
}
use leadertask_userver.Base.Int.{ℤ, pos, int_eq, IsInt64}
use leadertask_userver.RateLimit.{UserId}
use leadertask_userver.Definitions.{
  CreateUserRequestBody, CreateUserResponseBody, LoginRequestBody, CreateGoalRequestBody,
  CreateGoalResponseBody, Goal, User,
}
use leadertask_userver.Http.{HttpRequest}
use leadertask_userver.Storage.Users.{is_match}
use leadertask_userver.Services.UsersTable.{UserRow, where_search}
use leadertask_userver.Services.GoalsCollection.{Document}
use leadertask_userver.Repositories.Goals.{as_goal}
use leadertask_userver.Repositories.Users.Methods.{IsAdded, as_record, where_search-is_match}
use leadertask_userver.Auth.{accepted, rejected, algorithm, check_auth}
use leadertask_userver.Auth.Login.{login-check_auth}
use leadertask_userver.Views.Limited.{State}
use leadertask_userver.Views.Users.Signup
use leadertask_userver.Views.Users.Login
use leadertask_userver.Views.Users.Total.{IsReply, handle-IsReply}
use leadertask_userver.Views.Users.Search
use leadertask_userver.Views.Users.Laws.{
  is_incomplete, signup-IsAdded, IsSelected, search-IsSelected,
}
use leadertask_userver.Views.Goals.Create
use leadertask_userver.Views.Goals.List
use leadertask_userver.Views.Goals.Laws.{
  IsCreated, new_document, create-IsCreated, IsListOf, list-IsListOf,
}
use leadertask_userver.Tests.Users.{memory_users, open_tokens, UserRows}
use leadertask_userver.Tests.Goals.{memory_goals}
use leadertask_userver.Tests.World.{owner, oid_1, oid_7a, goal_of, clock}

abbrev pub ann : UserRow
ann = record {
  id = pos 1;
  login = codes "ann";
  password = codes "pw";
  first_name = codes "Anna";
  last_name = codes "Lee";
}

abbrev pub db : UserRows
db = record { next = 2; rows = ann ∷ []; below = ((1, refl, omega arith), tt) }

abbrev pub sign_up_of : Bytes → CreateUserRequestBody
sign_up_of login = record {
  login = login;
  password = codes "pw";
  first_name = codes "Bob";
  last_name = codes "Ray";
}

abbrev pub second : CreateUserResponseBody
second = record { user_id = pos 2 }

signup-IsAdded_example :
    (is_incomplete (sign_up_of (codes "bob")) ≡ false)
    × IsAdded memory_users
        (codes "bob")
        (codes "pw")
        (codes "Bob")
        (codes "Ray")
        (pos 2)
        db
        (Signup.handle memory_users (ok (sign_up_of (codes "bob"))) db).1
unfolding Signup.handle leadertask_userver.Repositories.Users.create_user
    leadertask_userver.Tests.Users.insert leadertask_userver.Base.bytes_beq
signup-IsAdded_example = signup-IsAdded memory_users (sign_up_of (codes "bob")) db second refl

-- The argument `firstNameMask` alone.
abbrev args : Bytes → String → Bytes
args mask String.[] = []
args mask (String.◌∷◌ c s) = if nat_beq (code c) b'f' then mask else []

abbrev search_request : HttpRequest
search_request = record {
  get_header = λ name. [];
  get_arg = args (codes "nn");
  has_arg = λ name. true;
  get_path_arg = λ name. [];
}

abbrev found : List User
found =
    record { id = pos 1; login = codes "ann"; first_name = codes "Anna"; last_name = codes "Lee" }
    ∷ []

search-IsSelected_example :
    (user_id : UserId) × (some owner ≡ some user_id)
    × IsSelected memory_users search_request db found
unfolding Search.handle leadertask_userver.Views.Limited.limited
    leadertask_userver.RateLimit.check_rate_limit leadertask_userver.Repositories.Users.search
    leadertask_userver.Tests.Users.select Search.copy_users where_search
search-IsSelected_example =
    search-IsSelected memory_users clock search_request (some owner)
      (record { limits = []; store = db }) found refl

where_search-is_match_example :
    where_search none (some (codes "nn")) none ann
    ≡ is_match none (some (codes "nn")) none (as_record ann)
where_search-is_match_example =
    where_search-is_match none (some (codes "nn")) none ann (refl, (refl, tt)) tt

abbrev credentials : LoginRequestBody
credentials = record { login = codes "ann"; password = codes "pw" }

in_range : (r : UserRow) → Memᴰ r (memory_users.replica db) → IsInt64 r.id
in_range r m = All-mem (λ (u : UserRow). IsInt64 u.id) r db.rows (omega arith, tt) m

login-check_auth_example :
    (r : UserRow) × Memᴰ r (memory_users.replica db)
    × (r.login ≡ codes "ann")
    × (r.password ≡ codes "pw")
    × (check_auth open_tokens (codes "key") (algorithm ++ codes "1")
        ≡ (rejected accepted "" none, some r.id))
unfolding leadertask_userver.Views.Users.Login.handle
    leadertask_userver.Repositories.Users.get_by_login_with_password
    leadertask_userver.Tests.Users.select leadertask_userver.Base.bytes_beq
    leadertask_userver.Number.to_string leadertask_userver.Number.digits
login-check_auth_example =
    login-check_auth memory_users open_tokens (codes "key") credentials db (codes "1") in_range refl

abbrev goals : List Document
goals = goal_of oid_1 owner ∷ []

abbrev goals_state : State (List Document)
goals_state = record { limits = []; store = goals }

abbrev new_goal : CreateGoalRequestBody
new_goal = record { title = codes "run"; description = none }

abbrev created_goal : CreateGoalResponseBody
created_goal = record {
  id = some oid_7a;
  title = some (codes "run");
  description = some [];
  user_id = some owner;
}

create-IsCreated_example :
    (user_id : UserId) × (some owner ≡ some user_id)
    × IsCreated memory_goals oid_7a new_goal user_id goals
        (Create.handle memory_goals clock oid_7a (ok new_goal) (some owner) goals_state).1.store
        created_goal
unfolding Create.handle leadertask_userver.Views.Limited.limited
    leadertask_userver.RateLimit.check_rate_limit leadertask_userver.Repositories.Goals.create_goal
    leadertask_userver.Tests.Goals.insert_one leadertask_userver.Base.bytes_beq
create-IsCreated_example =
    create-IsCreated memory_goals clock oid_7a new_goal (some owner) goals_state created_goal refl

abbrev shown : List Goal
shown = as_goal (goal_of oid_1 owner) ∷ []

list-IsListOf_example :
    (user_id : UserId) × (some owner ≡ some user_id) × IsListOf memory_goals user_id goals shown
unfolding List.handle leadertask_userver.Views.Limited.limited
    leadertask_userver.RateLimit.check_rate_limit leadertask_userver.Repositories.Goals.get_by_user
    leadertask_userver.Tests.Goals.find_by_user List.copy_goals leadertask_userver.Base.Int.int_beq
list-IsListOf_example = list-IsListOf memory_goals clock (some owner) goals_state shown refl

abbrev later : State (List Document)
later = record { limits = []; store = goals ++ new_document oid_7a new_goal owner ∷ [] }

abbrev all_shown : List Goal
all_shown = as_goal (goal_of oid_1 owner) ∷ as_goal (new_document oid_7a new_goal owner) ∷ []

-- The body of the sign-up could not be parsed.
handle-IsReply_example :
    IsReply (Signup.handle memory_users (err (record { what = "no JSON" })) db).0
    × IsReply (Login.handle memory_users open_tokens (codes "key") (ok credentials) db)
handle-IsReply_example =
    handle-IsReply memory_users open_tokens (codes "key") (err (record { what = "no JSON" }))
      (ok credentials) db
