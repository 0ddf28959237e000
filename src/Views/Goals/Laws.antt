-- ===== src/Views/Goals/Laws.antt =====
-- What the handlers of src/views/goals/create.cpp and list.cpp change and show.
use mathlib.Core.List.Memᴰ
use leadertask_userver.Base.{
  ◌≡◌, ◌≢◌, refl, sym, ◌∙◌, ap, subst, ◌↔◌, false, inl, inr, Option, some, List, [], ◌∷◌, ◌++◌, map,
  Memᴰ, Bool-cases, Result-cases, Bytes, is_empty, Result, ok, err, ok-injective, some-injective,
}
use leadertask_userver.RateLimit.{UserId}
use leadertask_userver.Definitions.{Exception, Goal, CreateGoalRequestBody, CreateGoalResponseBody}
use leadertask_userver.Http.{reply, reply-injective, reply_with, reply_with-injective, created_201}
use leadertask_userver.Services.GoalsCollection.{GoalsCollection, Document, text}
use leadertask_userver.Repositories.Goals.{create_goal, get_by_user, value_or_empty, as_goal}
use leadertask_userver.Views.Limited.{Clock, State}
use leadertask_userver.Views.Limited.Cases.{limited_value}
use leadertask_userver.Views.Goals.Create
use leadertask_userver.Views.Goals.List.{
  check_rate_limit, copy_goals, respond_or_throw, list_of_user, handle,
}

copy_goals_lem : (goals : List Goal) → copy_goals goals ≡ goals
unfolding copy_goals
copy_goals_lem [] = refl
copy_goals_lem (g ∷ gs) = ap (λ l. g ∷ l) (copy_goals_lem gs)

-- The document of a new goal.
abbrev pub new_document : Bytes → CreateGoalRequestBody → UserId → Document
new_document oid body user_id = record {
  oid = oid;
  title = body.title;
  user_id = user_id;
  description = text (value_or_empty body.description);
}

abbrev pub reply_of : Document → Bytes → CreateGoalResponseBody
reply_of d description = record {
  id = some d.oid;
  title = some d.title;
  description = some description;
  user_id = some d.user_id;
}

module _ (collection : GoalsCollection) where
  -- The collection has one document more, of that user; the reply shows its values.
  pub record IsCreated (oid : Bytes) (body : CreateGoalRequestBody) (user_id : UserId)
      (c c' : collection.Coll) (resp : CreateGoalResponseBody) : Type 0 where
    pub titled : is_empty body.title ≡ false
    pub documents :
        collection.documents c' ≡ collection.documents c ++ new_document oid body user_id ∷ []
    pub new_id : (d : Document) → Memᴰ d (collection.documents c) → d.oid ≢ oid
    pub replied : resp ≡ reply_of (new_document oid body user_id) (value_or_empty body.description)

  insert_goal-IsCreated :
      (oid : Bytes) (body : CreateGoalRequestBody) (user_id : UserId) (c c' : collection.Coll)
      (resp : CreateGoalResponseBody)
      → is_empty body.title ≡ false
      → Create.insert_goal collection oid body user_id c ≡ (reply_with created_201 resp, c')
      → IsCreated oid body user_id c c' resp
  unfolding Create.insert_goal create_goal
  insert_goal-IsCreated oid body user_id c c' resp titled h =
      let d = new_document oid body user_id in
      let k = ap (λ r. r.0) h in
      elim (Result-cases (collection.insert_one d c).0) [
        | inl (u, e) ↦
            let (documents, new_id) = collection.insert_one_ok d c u e in
            record {
              titled = titled;
              documents = ap (λ r. collection.documents r.1) (sym h) ∙ documents;
              new_id = new_id;
              replied = sym (reply_with-injective created_201 _ resp (rw e at k));
            }
        | inr (x, e) ↦ cc (rw e at k)
      ]

  -- A goal that the handler replies with is stored: the title is not empty, the user is known, and the
  -- collection has one document more, of that user, with a new id, the title and the description of the
  -- body, or an empty one if the body has none. The reply shows these values.
  pub create-IsCreated :
      (clock : Clock) (oid : Bytes) (body : CreateGoalRequestBody) (context : Option UserId)
      (s : State collection.Coll) (resp : CreateGoalResponseBody)
      → (Create.handle collection clock oid (ok body) context s).0 ≡ reply_with created_201 resp
      → (user_id : UserId) × (context ≡ some user_id)
        × IsCreated oid body user_id s.store
            (Create.handle collection clock oid (ok body) context s).1.store
            resp
  unfolding Create.handle
  create-IsCreated clock oid body context s resp h = elim (Bool-cases (is_empty body.title)) [
    | inl blank ↦ cc (rw blank at h)
    | inr titled ↦
        let (user_id, known, same) =
          limited_value check_rate_limit "user_id not found in token" clock
            (Create.insert_goal collection oid body) s context _ refl (rw titled at h) in
        (
          user_id,
          known,
          rw titled (insert_goal-IsCreated oid body user_id s.store _ resp titled same),
        )
  ]

  respond_inv :
      (found : Result Exception (List Goal)) (goals : List Goal)
      → respond_or_throw found ≡ reply goals
      → found ≡ ok goals
  respond_inv (ok gs) goals h =
      ap ok (sym (copy_goals_lem gs) ∙ reply-injective (copy_goals gs) goals h)
  respond_inv (err e) goals h = cc h

  get_by_user-documents :
      (user_id : UserId) (c : collection.Coll) (goals : List Goal)
      → get_by_user collection user_id c ≡ ok goals
      → (ds : List Document) × (collection.find_by_user user_id c ≡ ok ds)
        × (goals ≡ map as_goal ds)
  unfolding get_by_user
  get_by_user-documents user_id c goals h =
      elim (Result-cases (collection.find_by_user user_id c)) [
        | inl (ds, e) ↦ (
          ds,
          e,
          sym (ok-injective (ok (map as_goal ds)) (map as_goal ds) goals refl (rw e at h)),
        )
        | inr (x, e) ↦ cc (rw e at h)
      ]

  -- The goals of a user, as the list shows them.
  pub record IsListOf (user_id : UserId) (c : collection.Coll) (goals : List Goal) : Type 0 where
    pub documents : List Document
    pub shown : goals ≡ map as_goal documents
    pub exact :
        (d : Document)
        → Memᴰ d documents ↔ (Memᴰ d (collection.documents c) × (d.user_id ≡ user_id))

  -- If the list replies with goals, the user is known, and the goals are those of exactly the documents of
  -- the collection that belong to that user.
  pub list-IsListOf :
      (clock : Clock) (context : Option UserId) (s : State collection.Coll) (goals : List Goal)
      → (handle collection clock context s).0 ≡ reply goals
      → (user_id : UserId) × (context ≡ some user_id) × IsListOf user_id s.store goals
  unfolding handle list_of_user
  list-IsListOf clock context s goals h =
      let (user_id, known, same) =
        limited_value check_rate_limit "user_id not found in token" clock (list_of_user collection)
          s context _ refl h in
      let (ds, e, shown) =
        get_by_user-documents user_id s.store goals (respond_inv _ goals (ap (λ r. r.0) same)) in
      (
        user_id,
        known,
        record {
          documents = ds;
          shown = shown;
          exact = collection.find_by_user_ok user_id s.store ds e;
        },
      )

  -- A goal that a user created is in the list that the same user is shown next, under its new id, with the
  -- title of the body and its description, or an empty one, if the collection is still the one that the
  -- creation left; the limit of the list is one of its own.
  pub list-create :
      (clock clock' : Clock) (oid : Bytes) (body : CreateGoalRequestBody) (context : Option UserId)
      (s : State collection.Coll) (resp : CreateGoalResponseBody) (s' : State collection.Coll)
      (goals : List Goal)
      → (Create.handle collection clock oid (ok body) context s).0 ≡ reply_with created_201 resp
      → s'.store ≡ (Create.handle collection clock oid (ok body) context s).1.store
      → (handle collection clock' context s').0 ≡ reply goals
      → (user_id : UserId) × (context ≡ some user_id)
        × Memᴰ (as_goal (new_document oid body user_id)) goals
  list-create clock clock' oid body context s resp s' goals created kept listed =
      let (user_id, known, made) = create-IsCreated clock oid body context s resp created in
      let (lister, known', shown) = list-IsListOf clock' context s' goals listed in
      let d = new_document oid body user_id in
      let stored : Memᴰ d (collection.documents s'.store) =
        subst (λ ds. Memᴰ d ds) (sym (ap collection.documents kept ∙ made.documents))
          (Memᴰ.append_right (collection.documents s.store) (Memᴰ.head refl)) in
      let own = some-injective user_id lister (sym known ∙ known') in
      (
        user_id,
        known,
        subst (λ gs. Memᴰ (as_goal d) gs) (sym shown.shown)
            (Memᴰ.map as_goal ((shown.exact d).1 (stored, own))),
      )
