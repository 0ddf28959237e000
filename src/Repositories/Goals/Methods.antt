-- ===== src/Repositories/Goals/Methods.antt =====
-- What `GoalsRepository` stores and finds.
use leadertask_userver.Base.{
  ◌≡◌, refl, sym, Option, none, some, Memᴰ, inl, inr, Result-cases, Bytes, ok, map_ok,
  some-injective, ok-injective, subst,
}
use leadertask_userver.Definitions.{Exception, Goal}
use leadertask_userver.Services.GoalsCollection.{GoalsCollection, Document}
use leadertask_userver.Repositories.Goals.{as_goal, as_optional_goal, get_by_id}

module _ (goals : GoalsCollection) where
  -- A goal that `GetById` gives is a document of the collection, under the id that the text names.
  pub get_by_id-stored :
      (id : Bytes) (c : goals.Coll) (g : Goal)
      → get_by_id goals id c ≡ ok (some g)
      → (d : Document) × Memᴰ d (goals.documents c)
        × (goals.parse_oid id ≡ ok d.oid)
        × (as_goal d ≡ g)
  unfolding get_by_id
  get_by_id-stored id c g h = elim (Result-cases (goals.parse_oid id)) [
    | inl (oid, e) ↦ elim (Result-cases (goals.find_one oid c)) [
      | inl (found, f) ↦ found_document oid found e f (rw (e, f) at h)
      | inr (x, f) ↦ cc (rw (e, f) at h)
    ]
    | inr (x, e) ↦ cc (rw e at h)
  ]
    where
      found_document :
          (oid : Bytes) (found : Option Document)
          → goals.parse_oid id ≡ ok oid
          → goals.find_one oid c ≡ ok found
          → map_ok {E = Exception} as_optional_goal (ok found) ≡ ok (some g)
          → (d : Document) × Memᴰ d (goals.documents c)
            × (goals.parse_oid id ≡ ok d.oid)
            × (as_goal d ≡ g)
      found_document oid none e f k = cc k
      found_document oid (some d) e f k =
          let (stored, own) = goals.find_one_some oid c d f in
          (
            d,
            stored,
            subst (λ o. goals.parse_oid id ≡ ok o) (sym own) e,
            some-injective _ g (ok-injective _ (some (as_goal d)) (some g) refl k),
          )
