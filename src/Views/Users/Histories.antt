-- ===== src/Views/Users/Histories.antt =====
-- Histories of sign-ups by src/views/users/signup.cpp.
use mathlib.Core.List.Memᴰ
use leadertask_userver.Base.{
  Bytes, ◌≢◌, refl, List, [], ◌∷◌, ◌++◌, Memᴰ, Bool-cases, inl, inr, Result-cases, Result, ok, err,
}
use leadertask_userver.Definitions.{Exception, CreateUserRequestBody}
use leadertask_userver.Base.Int.{ℤ}
use leadertask_userver.Services.UsersTable.{
  UsersTable, UserRow, IsInserted, unique_violation, failure,
}
use leadertask_userver.Repositories.Users.{create_user}
use leadertask_userver.Views.Users.Signup
use leadertask_userver.Views.Users.Laws.{is_incomplete}

-- Two rows differ in the login and in the id.
abbrev pub IsOther : UserRow → UserRow → Type 0
IsOther r q = (r.login ≢ q.login) × (r.id ≢ q.id)

-- No login and no id stands twice.
abbrev pub AreUnique : List UserRow → Type 0
AreUnique [] = Unit {0}
AreUnique (q ∷ rows) = ((r : UserRow) → Memᴰ r rows → IsOther r q) × AreUnique rows

AreUnique-append :
    (rows : List UserRow) (new : UserRow)
    → AreUnique rows
    → ((r : UserRow) → Memᴰ r rows → IsOther r new)
    → AreUnique (rows ++ new ∷ [])
AreUnique-append [] new h k = (λ r m. elim m [ ], tt)
AreUnique-append (q ∷ rows) new (h, t) k = (
  λ r m. elim (Memᴰ.append_cases rows m) [
    | inl old ↦ h r old
    | inr last ↦ elim (Memᴰ.cases_cons last) [
      | inl same ↦
          let (login, id) = k q (Memᴰ.head refl) in
          (λ e. login (cc (e, same)), λ e. id (cc (e, same)))
      | inr none_left ↦ elim none_left [ ]
    ]
  ],
  AreUnique-append rows new t (λ r m. k r (Memᴰ.tail m)),
)

module _ (table : UsersTable) where
  -- The database after a history of sign-ups, each with the outcome of parsing its body.
  unfoldable pub sign_ups : List (Result Exception CreateUserRequestBody) → table.Db → table.Db
  sign_ups [] db = db
  sign_ups (body ∷ bodies) db = sign_ups bodies (Signup.handle table body db).1

  inserted-AreUnique :
      (login password first_name last_name : Bytes) (rows rows' : List UserRow) (id : ℤ)
      → IsInserted login password first_name last_name rows rows' id
      → AreUnique rows
      → AreUnique rows'
  inserted-AreUnique login password first_name last_name rows rows' id (fresh, e) h = rw e (
      AreUnique-append rows _ h
        (λ r m. let (other_id, other_login) = fresh r m in (other_login, other_id)))

  signup-AreUnique :
      (body : Result Exception CreateUserRequestBody) (db : table.Db)
      → AreUnique (table.primary db)
      → AreUnique (table.primary (Signup.handle table body db).1)
  unfolding Signup.handle create_user
  signup-AreUnique (err e) db h = h
  signup-AreUnique (ok body) db h = elim (Bool-cases (is_incomplete body)) [
    | inl bad ↦ rw bad h
    | inr good ↦
        elim (Result-cases
          (table.insert body.login body.password body.first_name body.last_name db).0) [
            | inl (id, e) ↦
                let new =
                  table.insert_ok body.login body.password body.first_name body.last_name db id e in
                rw good (inserted-AreUnique _ _ _ _ _ _ id new h)
            | inr (unique_violation, e) ↦
                let (_, same) =
                  table.insert_taken body.login body.password body.first_name body.last_name db e in
                rw (good, same) h
            | inr (failure x, e) ↦
                elim (table.insert_failed body.login body.password body.first_name body.last_name db
                  x e) [
                    | inl same ↦ rw (good, same) h
                    | inr (id, new) ↦ rw good (inserted-AreUnique _ _ _ _ _ _ id new h)
                  ]
          ]
  ]

  -- If no login and no id stands twice in the table, so it is after any history of sign-ups, whatever
  -- their bodies are and whether they are answered with an id, refused or fail.
  pub sign_ups-AreUnique :
      (bodies : List (Result Exception CreateUserRequestBody)) (db : table.Db)
      → AreUnique (table.primary db)
      → AreUnique (table.primary (sign_ups bodies db))
  unfolding sign_ups
  sign_ups-AreUnique [] db h = h
  sign_ups-AreUnique (body ∷ bodies) db h =
      sign_ups-AreUnique bodies (Signup.handle table body db).1 (signup-AreUnique body db h)
