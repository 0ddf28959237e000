-- ===== src/Repositories/Goals.antt =====
-- `GoalsRepository` of src/repositories/goals_repository.cpp.
pub mod Methods
use leadertask_userver.Base.{
  Option, none, some, List, map, [], Bytes, Result, ok, err, map_ok, and_then,
}
use leadertask_userver.Base.Int.{ℤ}
use leadertask_userver.Definitions.{Exception, Goal, CreateGoalResponseBody}
use leadertask_userver.Services.GoalsCollection.{
  GoalsCollection, Document, Member, missing, null, text,
}

-- The member `description` of a new document: the text, or `nullptr`.
abbrev pub description_member : Option Bytes → Member
description_member none = null
description_member (some d) = text d

abbrev pub value_or_empty : Option Bytes → Bytes
value_or_empty none = []
value_or_empty (some d) = d

-- `HasMember("description") && !IsNull() ? As<std::string>() : ""`.
abbrev pub description_of : Member → Bytes
description_of missing = []
description_of null = []
description_of (text d) = d

abbrev pub as_goal : Document → Goal
as_goal doc = record {
  id = doc.oid;
  title = doc.title;
  description = some (description_of doc.description);
  user_id = some doc.user_id;
}

abbrev pub as_optional_goal : Option Document → Option Goal
as_optional_goal none = none
as_optional_goal (some doc) = some (as_goal doc)

module _ (goals : GoalsCollection) where
  -- `CreateGoal`; `oid` is the id that the constructor `bson::Oid()` makes.
  unfoldable pub create_goal :
      Bytes
      → ℤ
      → Bytes
      → Option Bytes
      → goals.Coll
      → Result Exception CreateGoalResponseBody × goals.Coll
  create_goal oid user_id title description c =
      let doc : Document = record {
        oid = oid;
        title = title;
        user_id = user_id;
        description = description_member description;
      } in
      let (done, c') = goals.insert_one doc c in
      (
        map_ok
            (λ _. record {
              id = some oid;
              title = some title;
              description = some (value_or_empty description);
              user_id = some user_id;
            })
            done,
        c',
      )

  -- `GetById`.
  unfoldable pub get_by_id : Bytes → goals.Coll → Result Exception (Option Goal)
  get_by_id id c =
      and_then (goals.parse_oid id) (λ oid. map_ok as_optional_goal (goals.find_one oid c))

  -- `GetByUser`.
  unfoldable pub get_by_user : ℤ → goals.Coll → Result Exception (List Goal)
  get_by_user user_id c = map_ok (map as_goal) (goals.find_by_user user_id c)
