-- ===== src/Server/Growth.antt =====
-- What the requests never take away or change, and what only their user may change.
use mathlib.Core.List.{append-nil, append_assoc, map-append}
use leadertask_userver.Base.{
  ◌≡◌, ◌≢◌, refl, sym, ◌∙◌, ap, some, List, [], ◌∷◌, ◌++◌, map, Bytes, Bool-cases, inl, inr, All,
  ◌==◌, filter, filter-append, beq_ne,
}
use leadertask_userver.Base.Int.{ℤ, int_eq}
use leadertask_userver.RateLimit.{UserId}
use leadertask_userver.Services.TasksTable.{TaskRow, is_task_of, set_status}
use leadertask_userver.Services.GoalsCollection.{Document}
use leadertask_userver.Server.Defs.{Components, Request, Server}
use leadertask_userver.Server.Dispatch.{acting, serve, serve_all}
use leadertask_userver.Server.Steps.{
  Snapshot, snapshot, RequestStep, idle, user_added, goal_added, task_added, status_set, Reach,
  start, next,
}
use leadertask_userver.Server.Runs.{serve-Step, serve_all-Reach}

-- The first list is the beginning of the second.
abbrev pub Grows {ℓ} : {A : Type ℓ} → List A → List A → Type ℓ
Grows {A = A} xs ys = (more : List A) × (ys ≡ xs ++ more)

Grows-refl {ℓ} : {A : Type ℓ} (xs : List A) → Grows xs xs
Grows-refl xs = ([], sym (append-nil xs))

Grows-trans {ℓ} : {A : Type ℓ} (xs ys zs : List A) → Grows xs ys → Grows ys zs → Grows xs zs
Grows-trans xs ys zs (more, e) (rest, f) =
    (more ++ rest, f ∙ ap (λ l. l ++ rest) e ∙ append_assoc xs more rest)

-- What no request changes of a task: all but its status.
abbrev pub fixed_part : TaskRow → ℤ × ℤ × Bytes
fixed_part r = (r.id, r.goal_id, r.title)

-- Users, goals and tasks are only added, at the end; of a task that is there only the status may have changed.
pub record IsGrown (v w : Snapshot) : Type 0 where
  pub users : Grows v.users w.users
  pub goals : Grows v.goals w.goals
  pub tasks : Grows (map fixed_part v.tasks) (map fixed_part w.tasks)

IsGrown-refl : (v : Snapshot) → IsGrown v v
IsGrown-refl v = record { users = Grows-refl _; goals = Grows-refl _; tasks = Grows-refl _ }

IsGrown-trans : (v w x : Snapshot) → IsGrown v w → IsGrown w x → IsGrown v x
IsGrown-trans v w x h k = record {
  users = Grows-trans _ _ _ h.users k.users;
  goals = Grows-trans _ _ _ h.goals k.goals;
  tasks = Grows-trans _ _ _ h.tasks k.tasks;
}

fixed_part-set_status :
    (id goal_id : ℤ) (st : Bytes) (rows : List TaskRow)
    → map fixed_part (map (set_status id goal_id st) rows) ≡ map fixed_part rows
fixed_part-set_status id goal_id st [] = refl
fixed_part-set_status id goal_id st (r ∷ rows) = elim (Bool-cases (is_task_of id goal_id r)) [
  | inl own ↦ rw own (ap (λ l. fixed_part r ∷ l) (fixed_part-set_status id goal_id st rows))
  | inr other ↦ rw other (ap (λ l. fixed_part r ∷ l) (fixed_part-set_status id goal_id st rows))
]

pub Step-IsGrown :
    (c : Components) (r : Request) (v w : Snapshot) → RequestStep c r v w → IsGrown v w
Step-IsGrown c r v _ idle = IsGrown-refl v
Step-IsGrown c r v _ (user_added row new fresh) = record {
  users = (row ∷ [], refl);
  goals = Grows-refl _;
  tasks = Grows-refl _;
}
Step-IsGrown c r v _ (goal_added doc new fresh) = record {
  users = Grows-refl _;
  goals = (doc ∷ [], refl);
  tasks = Grows-refl _;
}
Step-IsGrown c r v _ (task_added row may new fresh) = record {
  users = Grows-refl _;
  goals = Grows-refl _;
  tasks = (fixed_part row ∷ [], map-append fixed_part v.tasks (row ∷ []));
}
Step-IsGrown c r v _ (status_set goal_id task_id body may valid) = record {
  users = Grows-refl _;
  goals = Grows-refl _;
  tasks = ([], fixed_part-set_status goal_id task_id body.status v.tasks ∙ sym (append-nil _));
}

Reach-IsGrown : (c : Components) (rs : List Request) (v w : Snapshot) → Reach c rs v w → IsGrown v w
Reach-IsGrown c _ v _ start = IsGrown-refl v
Reach-IsGrown c (r ∷ rs) v w (next {w = u} step after) =
    IsGrown-trans v u w (Step-IsGrown c r v u step) (Reach-IsGrown c rs u w after)

-- After any sequence of requests the users and the goals of before are there unchanged, in their order and
-- before any new ones, and so are the tasks, with their ids, goals and titles.
pub serve_all-IsGrown :
    (c : Components) (rs : List Request) (s : Server c)
    → IsGrown (snapshot c s.stored) (snapshot c (serve_all c rs s).stored)
serve_all-IsGrown c rs s = Reach-IsGrown c rs _ _ (serve_all-Reach c rs s)

-- The goals of a user.
abbrev pub goals_of : UserId → Snapshot → List Document
goals_of u v = filter (λ d. d.user_id == u) v.goals

filter-last :
    (u : UserId) (doc : Document)
    → doc.user_id ≢ u
    → filter (λ (d : Document). d.user_id == u) (doc ∷ []) ≡ []
unfolding filter
filter-last u doc other = rw (beq_ne doc.user_id u other) refl

Step-goals_of :
    (c : Components) (u : UserId) (r : Request) (v w : Snapshot)
    → acting c r ≢ some u
    → RequestStep c r v w
    → goals_of u w ≡ goals_of u v
Step-goals_of c u r v _ other idle = refl
Step-goals_of c u r v _ other (user_added row new fresh) = refl
Step-goals_of c u r v _ other (goal_added doc new fresh) =
    filter-append (λ d. d.user_id == u) v.goals (doc ∷ [])
    ∙ ap (λ l. goals_of u v ++ l)
        (filter-last u doc (λ e.
          other
            (new.known ∙ ap (λ i. some i) (sym (ap (λ (d : Document). d.user_id) new.made) ∙ e))))
    ∙ append-nil _
Step-goals_of c u r v _ other (task_added row may new fresh) = refl
Step-goals_of c u r v _ other (status_set goal_id task_id body may valid) = refl

-- The goals of a user are as before after any sequence of requests that are all served for others or for nobody.
pub goals_of-serve_all :
    (c : Components) (u : UserId) (rs : List Request) (s : Server c)
    → All (λ r. acting c r ≢ some u) rs
    → goals_of u (snapshot c (serve_all c rs s).stored) ≡ goals_of u (snapshot c s.stored)
unfolding serve_all
goals_of-serve_all c u [] s h = refl
goals_of-serve_all c u (r ∷ rs) s (other, h) =
    goals_of-serve_all c u rs (serve c r s).1 h ∙ Step-goals_of c u r _ _ other (serve-Step c r s)
