-- ===== src/Services/GoalsCollection.antt =====
-- The Mongo collection `goals`, behind the calls of src/repositories/goals_repository.cpp.
use leadertask_userver.Base.{
  ◌≡◌, ◌≢◌, ◌↔◌, ◌⊎◌, Option, none, some, List, [], ◌∷◌, ◌++◌, Memᴰ, Bytes, length, Result, ok, err,
}
use leadertask_userver.Base.Int.{ℤ}
use leadertask_userver.Definitions.{Exception}
use leadertask_userver.Number.ObjectId.{IsObjectId}

-- A member of a document that may be missing or null.
pub data Member : Type 0 where
  missing null : Member
  text : Bytes → Member

-- A document of the collection. Its id is held as its text of hexadecimal digits.
pub record Document : Type 0 where
  pub oid : Bytes
  pub title : Bytes
  pub user_id : ℤ
  pub description : Member

pub record GoalsCollection : Type 1 where
  pub Coll : Type 0
  pub documents : Coll → List Document
  -- the constructor `bson::Oid(text)`; an id is given by its text in lower case
  pub parse_oid : Bytes → Result Exception Bytes
  pub insert_one : Document → Coll → Result Exception (Unit {0}) × Coll
  -- FindOne({_id: oid})
  pub find_one : Bytes → Coll → Result Exception (Option Document)
  -- Find({userId: user_id}, Sort{_id: descending})
  pub find_by_user : ℤ → Coll → Result Exception (List Document)
  -- the text of an object id is accepted and stands for itself; a text of another size is not
  pub parse_oid_of_text : (s : Bytes) → IsObjectId s → parse_oid s ≡ ok s
  pub parse_oid_ok : (s o : Bytes) → parse_oid s ≡ ok o → (length s ≡ 24) × IsObjectId o
  pub insert_one_ok :
      (d : Document) (c : Coll) (u : Unit {0})
      → (insert_one d c).0 ≡ ok u
      → (documents (insert_one d c).1 ≡ documents c ++ d ∷ [])
        × ((e : Document) → Memᴰ e (documents c) → e.oid ≢ d.oid)
  -- if the connection is lost, it is not known whether the document was written
  pub insert_one_err :
      (d : Document) (c : Coll) (e : Exception)
      → (insert_one d c).0 ≡ err e
      → (documents (insert_one d c).1 ≡ documents c)
        ⊎ ((documents (insert_one d c).1 ≡ documents c ++ d ∷ [])
            × ((e : Document) → Memᴰ e (documents c) → e.oid ≢ d.oid))
  pub find_one_some :
      (oid : Bytes) (c : Coll) (d : Document)
      → find_one oid c ≡ ok (some d)
      → Memᴰ d (documents c) × (d.oid ≡ oid)
  pub find_one_none :
      (oid : Bytes) (c : Coll)
      → find_one oid c ≡ ok none
      → (d : Document) → Memᴰ d (documents c)
      → d.oid ≢ oid
  pub find_by_user_ok :
      (user_id : ℤ) (c : Coll) (ds : List Document)
      → find_by_user user_id c ≡ ok ds
      → (d : Document) → Memᴰ d ds ↔ (Memᴰ d (documents c) × (d.user_id ≡ user_id))
