-- ===== src/Tests/ServerRuns.antt =====
-- Requests to the whole server, one after another and at the same time.
use leadertask_userver.Base.{
  ◌≡◌, ◌≢◌, ◌↔◌, ◌⊎◌, refl, sym, ap, ◌∙◌, ◌+◌, ◌-◌, ◌*◌, ◌/◌, ◌≤◌, ℕ, Bool, true, false, Option,
  none, some, List, [], ◌∷◌, ◌++◌, Memᴰ, Bytes, codes, ok, err, arith, inl, inr, some-injective,
  length,
}
use leadertask_userver.Base.Int.{ℤ, pos, pos_part}
use leadertask_userver.Auth.{accepted, rejected, algorithm, check_auth}
use leadertask_userver.Auth.Bearer.{IsBearer, check_auth_iff}
use leadertask_userver.Server.Defs.{
  Components, Request, Call, hello, login, signup, search, create_goal, list_goals, create_task,
  update_task_status, list_tasks, Limits, Data, Server,
}
use leadertask_userver.Server.Dispatch.{acting, serve, serve_all}
use leadertask_userver.Server.Steps.{snapshot, RequestStep, Reach}
use leadertask_userver.Server.Runs.{serve-Step}
use leadertask_userver.Server.Access.{IsServed, IsRejected, serve-IsServed}
use leadertask_userver.Server.Invariants.{IsWellFormed, serve_all-IsWellFormed}
use leadertask_userver.Server.Growth.{IsGrown, goals_of, serve_all-IsGrown, goals_of-serve_all}
use leadertask_userver.RateLimit.{nanos_per_second}
use leadertask_userver.Server.Rates.{task_creations}
use leadertask_userver.Server.Rates.Bounds.{count_answers, count_answers-le_rate}
use leadertask_userver.Server.Threads.{
  Pending, insert_pending, waiting, read_create, Threads, written, Moves, none_yet, then_moves,
  serves, reads_create, writes,
}
use leadertask_userver.Server.Threads.Safe.{Moves-Reach}
use leadertask_userver.Tests.Server.{components, no_limits, server, http_of}
use leadertask_userver.Tests.Goals.{memory_goals}
use leadertask_userver.Tests.Users.{open_tokens}
use leadertask_userver.Tests.ServiceRuns.{sign_up_of}
use leadertask_userver.Tests.World.{owner, clock, new_task, parsed_status}

abbrev request_of : Bytes → Call → Request
request_of token call = record { clock = clock; http = http_of token; call = call }

-- The owner has the id 5.
abbrev creation : Request
creation = request_of (codes "5") (create_task (ok new_task))

abbrev requests : List Request
requests =
    creation
    ∷ request_of [] (signup (ok (sign_up_of (codes "bob"))))
    ∷ request_of (codes "6") (update_task_status parsed_status)
    ∷ []

serve-Step_example :
    RequestStep components creation
      (snapshot components server.stored)
      (snapshot components (serve components creation server).1.stored)
serve-Step_example = serve-Step components creation server

serve-IsServed_example :
    IsServed components creation server (serve components creation server)
    ⊎ IsRejected components creation server (serve components creation server)
unfolding leadertask_userver.Server.Defs.needs_auth
serve-IsServed_example = serve-IsServed components creation server refl

serve_all-IsWellFormed_example :
    IsWellFormed (snapshot components (serve_all components requests server).stored)
serve_all-IsWellFormed_example = serve_all-IsWellFormed components requests server (record {
  user_ids = (λ r m. elim m [ ], tt);
  logins = (λ r m. elim m [ ], tt);
  task_ids = (λ r m. elim m [ ], tt);
  statuses = (inl refl, tt);
  oids = (λ r m. elim m [ ], tt);
})

serve_all-IsGrown_example :
    IsGrown
      (snapshot components server.stored)
      (snapshot components (serve_all components requests server).stored)
serve_all-IsGrown_example = serve_all-IsGrown components requests server

abbrev others : List Request
others =
    request_of [] (signup (ok (sign_up_of (codes "bob"))))
    ∷ request_of (codes "6") (update_task_status parsed_status)
    ∷ []

abbrev user_number : Option ℤ → ℕ
user_number none = 0
user_number (some z) = pos_part z

for_nobody : acting components (request_of [] (signup (ok (sign_up_of (codes "bob"))))) ≡ none
unfolding leadertask_userver.Server.Defs.needs_auth
for_nobody = refl

for_other :
    acting components (request_of (codes "6") (update_task_status parsed_status)) ≡ some (pos 6)
unfolding leadertask_userver.Server.Defs.needs_auth check_auth leadertask_userver.Number.stoll
for_other = refl

other_users : some (pos 6) ≢ some owner
other_users e = omega (arith, ap user_number e)

goals_of-serve_all_example :
    goals_of owner (snapshot components (serve_all components others server).stored)
    ≡ goals_of owner (snapshot components server.stored)
goals_of-serve_all_example =
    goals_of-serve_all components owner others server
      (λ e. cc (for_nobody, e), (λ e. other_users (sym for_other ∙ e), tt))

check_auth_iff_example :
    (check_auth open_tokens (codes "key") (algorithm ++ codes "5")
      ≡ (rejected accepted "" none, some (pos 5)))
    ↔ IsBearer open_tokens (codes "key") (algorithm ++ codes "5") (pos 5)
check_auth_iff_example = check_auth_iff open_tokens (codes "key") (algorithm ++ codes "5") (pos 5)

-- A creation has read its goal, another user's update is served, and then the task is inserted.
abbrev between : Server components
between = (serve components (request_of (codes "6") (update_task_status parsed_status)) server).1

abbrev inserting : Pending
inserting = insert_pending owner (pos 1) (codes "read")

abbrev moved : Threads components
moved = record { server = written components inserting between; pending = [] }

has_read :
    read_create components (http_of (codes "5")) new_task owner server.stored.goals
    ≡ waiting inserting
unfolding read_create leadertask_userver.Number.stoll
    leadertask_userver.Repositories.Goals.get_by_id leadertask_userver.Tests.Goals.parse_oid
    leadertask_userver.Tests.Goals.find_one leadertask_userver.Base.bytes_beq
    leadertask_userver.Base.Int.int_beq
has_read = refl

abbrev other_update : Request
other_update = request_of (codes "6") (update_task_status parsed_status)

moves :
    Moves components (record { server = server; pending = [] }) (other_update ∷ creation ∷ []) moved
unfolding check_auth leadertask_userver.Number.stoll leadertask_userver.Server.Defs.needs_auth
moves =
    then_moves (reads_create creation new_task owner inserting no_limits refl refl refl has_read) (
      then_moves (serves other_update) (then_moves (writes [] [] creation inserting refl) none_yet))

Moves-Reach_example :
    Reach components
      (other_update ∷ creation ∷ [])
      (snapshot components server.stored)
      (snapshot components moved.server.stored)
Moves-Reach_example = Moves-Reach components server (other_update ∷ creation ∷ []) moved moves

count_answers-le_rate_example :
    count_answers components task_creations owner (creation ∷ creation ∷ creation ∷ []) server
    ≤ 2 + 2 * ((10 - 10) / nanos_per_second)
count_answers-le_rate_example =
    count_answers-le_rate components task_creations owner 10 10
      (creation ∷ creation ∷ creation ∷ []) server
      (omega arith, (omega arith, (omega arith, omega arith)))
