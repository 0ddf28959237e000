-- ===== src/Tests/Users.antt =====
-- A table of users in memory, and tokens that show their parts.
use leadertask_userver.Base.{
  ◌≡◌, ◌≢◌, ◌⊎◌, refl, sym, ◌∙◌, ap, ◌↔◌, Bool, true, List, [], ◌∷◌, ◌++◌, Memᴰ, if◌then◌else◌,
  Bool-cases, inl, inr, Bytes, Result, ok, err, ok-injective, filter, filter-mem_iff, ◌==◌, subst,
  bytes_eq, bytes_beq_iff,
}
use leadertask_userver.Base.Int.{ℤ, pos, int_eq, int_beq_iff}
use leadertask_userver.Definitions.{Exception}
use leadertask_userver.Services.UsersTable.{
  UsersTable, UserRow, PgError, unique_violation, failure, IsInserted, where_search,
}
use leadertask_userver.Services.Tokens.{Tokens}
use leadertask_userver.Tests.Memory.{Rows, add, next_is_new, any, any_sound, any_complete}

abbrev pub UserRows : Type 0
UserRows = Rows (λ (r : UserRow). r.id)

abbrev pub new_row : Bytes → Bytes → Bytes → Bytes → UserRows → UserRow
new_row login password first_name last_name db = record {
  id = pos db.next;
  login = login;
  password = password;
  first_name = first_name;
  last_name = last_name;
}

unfoldable pub insert : Bytes → Bytes → Bytes → Bytes → UserRows → Result PgError ℤ × UserRows
unfolding any
insert login password first_name last_name db =
    if any (λ r. r.login == login) db.rows then (err unique_violation, db) else (
      ok (pos db.next),
      add (λ r. r.id) db (new_row login password first_name last_name db) refl,
    )

pub insert_ok :
    (login password first_name last_name : Bytes) (db : UserRows) (id : ℤ)
    → (insert login password first_name last_name db).0 ≡ ok id
    → ((r : UserRow) → Memᴰ r db.rows → (r.id ≢ id) × (r.login ≢ login))
      × ((insert login password first_name last_name db).1.rows
          ≡ db.rows
            ++ record {
              id = id;
              login = login;
              password = password;
              first_name = first_name;
              last_name = last_name;
            }
              ∷ [])
unfolding insert
insert_ok login password first_name last_name db id h =
    elim (Bool-cases (any (λ (r : UserRow). r.login == login) db.rows)) [
      | inl taken ↦ cc (rw taken at h)
      | inr new ↦
          let same : pos db.next ≡ id =
            ok-injective (insert login password first_name last_name db).0 (pos db.next) id
              (rw new refl) h in
          (
            λ r m. (
              subst (λ n. r.id ≢ n) same (next_is_new (λ (x : UserRow). x.id) db r m),
              λ own. cc (
                new,
                any_complete (λ (x : UserRow). x.login == login) r db.rows m
                    ((bytes_beq_iff r.login login).1 own),
              ),
            ),
            rw new (
                ap
                  (λ n.
                    db.rows
                    ++ record {
                      id = n;
                      login = login;
                      password = password;
                      first_name = first_name;
                      last_name = last_name;
                    }
                      ∷ [])
                  same),
          )
    ]

pub insert_failed :
    (login password first_name last_name : Bytes) (db : UserRows) (e : Exception)
    → (insert login password first_name last_name db).0 ≡ err (failure e)
    → ((insert login password first_name last_name db).1.rows ≡ db.rows)
      ⊎ ((id : ℤ) × IsInserted login password first_name last_name db.rows
            (insert login password first_name last_name db).1.rows
            id)
unfolding insert
insert_failed login password first_name last_name db e h =
    elim (Bool-cases (any (λ (r : UserRow). r.login == login) db.rows)) [
      | inl taken ↦ inl (rw taken refl)
      | inr new ↦ cc (rw new at h)
    ]

pub insert_taken :
    (login password first_name last_name : Bytes) (db : UserRows)
    → (insert login password first_name last_name db).0 ≡ err unique_violation
    → ((r : UserRow) × Memᴰ r db.rows × (r.login ≡ login))
      × ((insert login password first_name last_name db).1 ≡ db)
unfolding insert
insert_taken login password first_name last_name db h =
    elim (Bool-cases (any (λ (r : UserRow). r.login == login) db.rows)) [
      | inl taken ↦
          let (r, m, e) = any_sound (λ (x : UserRow). x.login == login) db.rows taken in
          ((r, m, (bytes_beq_iff r.login login).0 e), rw taken refl)
      | inr new ↦ cc (rw new at h)
    ]

unfoldable pub exists : ℤ → UserRows → Result Exception Bool
unfolding any
exists id db = ok (any (λ r. r.id == id) db.rows)

pub exists_ok :
    (id : ℤ) (db : UserRows) (b : Bool)
    → exists id db ≡ ok b
    → (b ≡ true) ↔ ((r : UserRow) × Memᴰ r db.rows × (r.id ≡ id))
unfolding exists
exists_ok id db b h =
    let same : any (λ (x : UserRow). x.id == id) db.rows ≡ b =
      ok-injective (exists id db) _ b refl h in
    (
      λ e.
          let (r, m, q) = any_sound (λ (x : UserRow). x.id == id) db.rows (same ∙ e) in
          (r, m, (int_beq_iff r.id id).0 q),
      λ (r, m, own).
          sym same
          ∙ any_complete (λ (x : UserRow). x.id == id) r db.rows m ((int_beq_iff r.id id).1 own),
    )

unfoldable pub select : (UserRow → Bool) → UserRows → Result Exception (List UserRow)
unfolding filter
select p db = ok (filter p db.rows)

pub select_ok :
    (p : UserRow → Bool) (db : UserRows) (rows : List UserRow)
    → select p db ≡ ok rows
    → rows ≡ filter p db.rows
unfolding select
select_ok p db rows h = ok-injective (select p db) rows _ h refl

pub select_mem :
    (p : UserRow → Bool) (db : UserRows) (rows : List UserRow)
    → select p db ≡ ok rows
    → (r : UserRow) → Memᴰ r rows ↔ (Memᴰ r db.rows × (p r ≡ true))
select_mem p db rows h r =
    subst (λ l. Memᴰ r l ↔ (Memᴰ r db.rows × (p r ≡ true))) (sym (select_ok p db rows h))
      (filter-mem_iff p r db.rows)

abbrev pub memory_users : UsersTable
memory_users = record {
  Db = UserRows;
  primary = λ db. db.rows;
  replica = λ db. db.rows;
  insert = insert;
  select_by_login = λ login. select (λ r. r.login == login);
  select_by_id = λ id. select (λ r. r.id == id);
  exists = exists;
  select_search = λ l f n. select (where_search l f n);
  insert_ok = insert_ok;
  insert_failed = insert_failed;
  insert_taken = insert_taken;
  select_by_login_ok = λ login. select_ok (λ r. r.login == login);
  select_by_id_ok = λ id. select_ok (λ r. r.id == id);
  exists_ok = exists_ok;
  select_search_ok = λ l f n. select_mem (where_search l f n);
}

-- A token is its subject.
abbrev pub open_tokens : Tokens
open_tokens = record {
  sign = λ secret issuer subject. ok subject;
  verify = λ secret issuer token. ok token;
  verify_sign = λ secret issuer subject token h. ap ok (sym (ok-injective _ subject token refl h));
}
