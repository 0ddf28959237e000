-- ===== src/Server/Threads/Safe.antt =====
-- Whatever comes between the two calls of a handler, the goal that it has read is still there when it writes.
use mathlib.Core.List.Memᴰ
use leadertask_userver.Base.{
  ◌≡◌, false, is_empty, refl, sym, ◌∙◌, ap, subst, Option, none, some, List, [], ◌∷◌, ◌++◌,
  Bool-cases, inl, inr, All, All-remove, Result, ok, err,
}
use leadertask_userver.Base.Int.{ℤ, int_eq, int_beq_iff}
use leadertask_userver.Number.{stoll, value_of, parse_int}
use leadertask_userver.Views.Tasks
use leadertask_userver.RateLimit.{UserId}
use leadertask_userver.Definitions.{Exception, Goal, CreateTaskRequestBody, UpdateTaskStatusRequest}
use leadertask_userver.Services.GoalsCollection.{Document}
use leadertask_userver.Repositories.Goals.{get_by_id}
use leadertask_userver.Repositories.Goals.Methods.{get_by_id-stored}
use leadertask_userver.Views.Tasks.Stores.{is_owner}
use leadertask_userver.Server.Defs.{Components, Request, create_task, update_task_status, Server}
use leadertask_userver.Server.Dispatch.{acting}
use leadertask_userver.Server.Steps.{
  Snapshot, snapshot, MayAdd, MaySet, RequestStep, Reach, start, next,
}
use leadertask_userver.Server.Refines.{task_inserted, status_written}
use leadertask_userver.Server.Runs.{serve-Step}
use leadertask_userver.Server.Growth.{Step-IsGrown}
use leadertask_userver.Server.Threads.{
  Pending, insert_pending, update_pending, waiting, goal_read_create, number_read, read_create,
  goal_read_update, numbers_read, read_update, write, Threads, written, Move, serves, reads_create,
  reads_update, writes, Moves, none_yet, then_moves,
}

waiting-injective : (p q : Pending) → waiting p ≡ waiting q → p ≡ q
waiting-injective p q h = cc h

module _ (c : Components) where
  -- What the first call of the request's handler has found: for an insertion a goal of the user, for an update any.
  abbrev IsAllowed : List Document → Request × Pending → Type 0
  IsAllowed goals (r, insert_pending user_id goal_id title) =
      MayAdd c (acting c r) r.http r.call goals goal_id title
  IsAllowed goals (r, update_pending user_id goal_id task_id body) =
      MaySet c (acting c r) r.http r.call goals goal_id task_id body

  IsAllowed-grown :
      (goals more : List Document) (r : Request) (p : Pending)
      → IsAllowed goals (r, p)
      → IsAllowed (goals ++ more) (r, p)
  IsAllowed-grown goals more r (insert_pending user_id goal_id title) may = record {
    user_id = may.user_id;
    known = may.known;
    body = may.body;
    asked = may.asked;
    titled = may.titled;
    same_title = may.same_title;
    number = may.number;
    doc = may.doc;
    stored = Memᴰ.append_left more may.stored;
    named = may.named;
    owned = may.owned;
  }
  IsAllowed-grown goals more r (update_pending user_id goal_id task_id body) may = record {
    user_id = may.user_id;
    known = may.known;
    asked = may.asked;
    goal_number = may.goal_number;
    task_number = may.task_number;
    doc = may.doc;
    stored = Memᴰ.append_left more may.stored;
    named = may.named;
  }

  module _ (r : Request) (user_id : UserId) (known : acting c r ≡ some user_id)
      (goals : c.goals.Coll) where
    goal_read_create-IsAllowed :
        (goal_id : ℤ) (body : CreateTaskRequestBody) (found : Result Exception (Option Goal))
        (p : Pending)
        → r.call ≡ create_task (ok body)
        → is_empty body.title ≡ false
        → value_of (stoll (r.http.get_path_arg "goalId")) ≡ some goal_id
        → get_by_id c.goals (r.http.get_path_arg "goalId") goals ≡ found
        → goal_read_create c user_id goal_id body.title found ≡ waiting p
        → IsAllowed (c.goals.documents goals) (r, p)
    goal_read_create-IsAllowed goal_id body (err e) p asked titled n h w = cc w
    goal_read_create-IsAllowed goal_id body (ok none) p asked titled n h w = cc w
    goal_read_create-IsAllowed goal_id body (ok (some goal)) p asked titled n h w =
        elim (Bool-cases (is_owner user_id goal.user_id)) [
          | inl own ↦
              let (doc, stored, named, same) = get_by_id-stored c.goals _ goals goal h in
              subst (λ q. IsAllowed (c.goals.documents goals) (r, q))
                (waiting-injective (insert_pending user_id goal_id body.title) p (rw own at w))
                (record {
                  user_id = user_id;
                  known = known;
                  body = body;
                  asked = asked;
                  titled = titled;
                  same_title = refl;
                  number = n;
                  doc = doc;
                  stored = stored;
                  named = named;
                  owned =
                      (int_beq_iff doc.user_id user_id).0
                        (ap (λ (g : Goal). is_owner user_id g.user_id) same ∙ own);
                })
          | inr other ↦ cc (rw other at w)
        ]

    number_read-IsAllowed :
        (number : Option ℤ) (body : CreateTaskRequestBody) (p : Pending)
        → r.call ≡ create_task (ok body)
        → is_empty body.title ≡ false
        → value_of (stoll (r.http.get_path_arg "goalId")) ≡ number
        → number_read c number r.http body user_id goals ≡ waiting p
        → IsAllowed (c.goals.documents goals) (r, p)
    number_read-IsAllowed none body p asked titled n w = cc w
    number_read-IsAllowed (some goal_id) body p asked titled n w =
        goal_read_create-IsAllowed goal_id body _ p asked titled n refl w

    goal_read_update-IsAllowed :
        (goal_id task_id : ℤ) (body : Result Exception UpdateTaskStatusRequest)
        (found : Result Exception (Option Goal)) (p : Pending)
        → r.call ≡ update_task_status body
        → parse_int (r.http.get_path_arg "goalId") ≡ some goal_id
        → parse_int (r.http.get_path_arg "taskId") ≡ some task_id
        → get_by_id c.goals (r.http.get_path_arg "goalId") goals ≡ found
        → goal_read_update c user_id goal_id task_id body found ≡ waiting p
        → IsAllowed (c.goals.documents goals) (r, p)
    goal_read_update-IsAllowed goal_id task_id body (err e) p asked n m h w = cc w
    goal_read_update-IsAllowed goal_id task_id body (ok none) p asked n m h w = cc w
    goal_read_update-IsAllowed goal_id task_id body (ok (some goal)) p asked n m h w =
        let (doc, stored, named, _) = get_by_id-stored c.goals _ goals goal h in
        subst (λ q. IsAllowed (c.goals.documents goals) (r, q))
          (waiting-injective (update_pending user_id goal_id task_id body) p w)
          (record {
            user_id = user_id;
            known = known;
            asked = asked;
            goal_number = n;
            task_number = m;
            doc = doc;
            stored = stored;
            named = named;
          })

    numbers_read-IsAllowed :
        (goal task : Option ℤ) (body : Result Exception UpdateTaskStatusRequest) (p : Pending)
        → r.call ≡ update_task_status body
        → parse_int (r.http.get_path_arg "goalId") ≡ goal
        → parse_int (r.http.get_path_arg "taskId") ≡ task
        → numbers_read c
            (Tasks.Update.both_numbers c.tasks c.goals goal task)
            r.http
            body
            user_id
            goals
          ≡ waiting p
        → IsAllowed (c.goals.documents goals) (r, p)
    numbers_read-IsAllowed none task body p asked n m w = cc w
    numbers_read-IsAllowed (some goal_id) none body p asked n m w = cc w
    numbers_read-IsAllowed (some goal_id) (some task_id) body p asked n m w =
        goal_read_update-IsAllowed goal_id task_id body _ p asked n m refl w

  -- A write that is allowed is a step of its request.
  write-Step :
      (r : Request) (p : Pending) (s : Server c)
      → IsAllowed (c.goals.documents s.stored.goals) (r, p)
      → RequestStep c r (snapshot c s.stored) (snapshot c (written c p s).stored)
  unfolding write
  write-Step r (insert_pending user_id goal_id title) s may =
      task_inserted c s.stored (acting c r) r.http r.call goal_id title may
  write-Step r (update_pending user_id goal_id task_id body) s may =
      status_written c s.stored (acting c r) r.http r.call goal_id task_id body may

  -- Every write that is to be made is allowed.
  abbrev AreAllowed : Threads c → Type 0
  AreAllowed t = All (IsAllowed (c.goals.documents t.server.stored.goals)) t.pending

  kept_by :
      (q : Request) (v w : Snapshot) (ps : List (Request × Pending))
      → RequestStep c q v w
      → All (IsAllowed v.goals) ps
      → All (IsAllowed w.goals) ps
  kept_by q v w [] step h = tt
  kept_by q v w ((r, p) ∷ ps) step (h, k) =
      let (more, all) = (Step-IsGrown c q v w step).goals in
      (
        subst (λ goals. IsAllowed goals (r, p)) (sym all) (IsAllowed-grown _ more r p h),
        kept_by q v w ps step k,
      )

  -- Where moves lead, and the writes are still allowed.
  record Leads (t : Threads c) (rs : List Request) (u : Threads c) : Type 0 where
    allowed : AreAllowed u
    reached : Reach c rs (snapshot c t.server.stored) (snapshot c u.server.stored)

  Move-Leads :
      (t : Threads c) (rs : List Request) (u : Threads c)
      → Move c t rs u
      → AreAllowed t
      → Leads t rs u
  unfolding read_create read_update
  Move-Leads t _ _ (serves r) h = record {
    allowed = kept_by r _ _ t.pending (serve-Step c r t.server) h;
    reached = next (serve-Step c r t.server) start;
  }
  Move-Leads t _ _ (reads_create r body user_id p limits asked titled known w) h = record {
    allowed = (
      number_read-IsAllowed r user_id known t.server.stored.goals _ body p asked titled refl w,
      h,
    );
    reached = start;
  }
  Move-Leads t _ _ (reads_update r body user_id p limits asked known w) h = record {
    allowed = (
      numbers_read-IsAllowed r user_id known t.server.stored.goals _ _ body p asked refl refl w,
      h,
    );
    reached = start;
  }
  Move-Leads t _ _ (writes before after r p e) h =
      let goals = c.goals.documents t.server.stored.goals in
      let (others, own) =
        All-remove (IsAllowed goals) before after (r, p) (subst (All (IsAllowed goals)) e h) in
      record {
        allowed = kept_by r _ _ (before ++ after) (write-Step r p t.server own) others;
        reached = next (write-Step r p t.server own) start;
      }

  Reach-append :
      (rs more : List Request) (v w x : Snapshot)
      → Reach c rs v w
      → Reach c more w x
      → Reach c (rs ++ more) v x
  Reach-append _ more v _ x start h = h
  Reach-append (r ∷ rs) more v w x (next {w = u} step after) h =
      next step (Reach-append rs more u w x after h)

  Moves-Leads :
      (t : Threads c) (rs : List Request) (u : Threads c)
      → Moves c t rs u
      → AreAllowed t
      → Reach c rs (snapshot c t.server.stored) (snapshot c u.server.stored)
  Moves-Leads t _ _ none_yet h = start
  Moves-Leads t _ u (then_moves {rs = rs} {more = more} {u = v} move after) h =
      let now = Move-Leads t rs v move h in
      Reach-append rs more _ _ _ now.reached (Moves-Leads v more u after now.allowed)

  -- From a server with no write to be made, whatever the requests are and in whatever order their calls come, the
  -- data are reached by one step of each request that was served or has made its write, in the order of serving
  -- and writing, each step for the user whom the checker finds in its own request. So, though a creation has read
  -- its goal before, it inserts a task only while the path names a stored goal of that user.
  pub Moves-Reach :
      (s : Server c) (rs : List Request) (t : Threads c)
      → Moves c (record { server = s; pending = [] }) rs t
      → Reach c rs (snapshot c s.stored) (snapshot c t.server.stored)
  Moves-Reach s rs t moves = Moves-Leads _ rs t moves tt
