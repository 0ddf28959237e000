-- ===== src/Storage/Users/Methods.antt =====
-- What the methods of `UsersStorage` do, and what holds after any history of sign-ups.
use leadertask_userver.Base.{
  ℕ, suc, ◌+◌, ◌<◌, ◌≡◌, refl, sym, ◌∙◌, ap, ◌≢◌, ◌⊎◌, inl, inr, true, false, none, some, List, [],
  ◌∷◌, ◌++◌, All, All-append, if◌then◌else◌, Bytes, ◌==◌, bytes_eq, arith, Bool-cases,
}
use leadertask_userver.Base.Int.{ℤ, pos, int_eq, int_beq_iff}
use leadertask_userver.Base.Assoc.{find, contains, emplace, find-emplace}
use leadertask_userver.Base.Assoc.Entries.{
  values, values-append, IsKeyed, IsDistinct, IsDistinct-append, emplace_fresh,
}
use leadertask_userver.Storage.Users.{
  UserRecord, UsersStorage, new_storage, create_user, get_by_login, get_by_id,
}

-- Every id has been handed out.
abbrev pub IsFresh : ℕ → List (ℤ × UserRecord) → Type 0
IsFresh next m = All (λ e. (n : ℕ) × (e.0 ≡ pos n) × (n < next)) m

-- Both maps hold the same users, each under its own login and its own id, and no key stands twice.
pub record IsConsistent (s : UsersStorage) : Type 0 where
  pub own_login : IsKeyed (λ u. u.login) s.users_by_login
  pub own_id : IsKeyed (λ u. u.id) s.users_by_id
  pub fresh : IsFresh s.next_id s.users_by_id
  pub logins : IsDistinct s.users_by_login
  pub ids : IsDistinct s.users_by_id
  pub same_users : values s.users_by_login ≡ values s.users_by_id

pub find_fresh : (next : ℕ) (m : List (ℤ × UserRecord)) → IsFresh next m → find (pos next) m ≡ none
unfolding find
find_fresh next [] k = refl
find_fresh next ((j, t) ∷ m) ((n, f, l), k) =
    ground (arith, int_beq_iff j (pos next), find_fresh next m k)

IsFresh-mono : (a b : ℕ) (m : List (ℤ × UserRecord)) → a < suc b → IsFresh a m → IsFresh b m
IsFresh-mono a b [] h k = tt
IsFresh-mono a b ((j, t) ∷ m) h ((n, f, l), k) = ((n, f, omega arith), IsFresh-mono a b m h k)

find_of_contains :
    (k : Bytes) (m : List (Bytes × UserRecord)) → contains k m ≡ false → find k m ≡ none
unfolding contains
find_of_contains k m h = ground arith

taken_found : (k : Bytes) (m : List (Bytes × UserRecord)) → contains k m ≡ true → find k m ≢ none
unfolding contains
taken_found k m h none_there = cc (rw none_there at h)

abbrev pub made : Bytes → Bytes → Bytes → Bytes → UsersStorage → UserRecord
made login password first_name last_name s = record {
  id = pos s.next_id;
  login = login;
  password = password;
  first_name = first_name;
  last_name = last_name;
}

module _ (login password first_name last_name : Bytes) (s : UsersStorage) where
  pub create_user_taken :
      contains login s.users_by_login ≡ true
      → create_user login password first_name last_name s ≡ (none, s)
  unfolding create_user
  create_user_taken h = rw h

  pub create_user_new :
      contains login s.users_by_login ≡ false
      → create_user login password first_name last_name s ≡ (
        some (pos s.next_id),
        record {
          next_id = s.next_id + 1;
          users_by_login =
              emplace login (made login password first_name last_name s) s.users_by_login;
          users_by_id =
              emplace (pos s.next_id) (made login password first_name last_name s) s.users_by_id;
        },
      )
  unfolding create_user
  create_user_new h = rw h

  create_user_new-IsConsistent :
      contains login s.users_by_login ≡ false
      → IsConsistent s
      → IsConsistent (create_user login password first_name last_name s).1
  create_user_new-IsConsistent h v =
      let user = made login password first_name last_name s in
      let no_login = find_of_contains login s.users_by_login h in
      let no_id = find_fresh s.next_id s.users_by_id v.fresh in
      rw
        (
          create_user_new h,
          emplace_fresh login user s.users_by_login no_login,
          emplace_fresh (pos s.next_id) user s.users_by_id no_id,
        )
        (record {
          own_login = All-append _ s.users_by_login _ v.own_login (refl, tt);
          own_id = All-append _ s.users_by_id _ v.own_id (refl, tt);
          fresh =
              All-append _ s.users_by_id _
                (IsFresh-mono s.next_id (s.next_id + 1) s.users_by_id (omega arith) v.fresh)
                ((s.next_id, refl, omega arith), tt);
          logins = IsDistinct-append login user s.users_by_login no_login v.logins;
          ids = IsDistinct-append (pos s.next_id) user s.users_by_id no_id v.ids;
          same_users =
              values-append s.users_by_login _
              ∙ ap (λ us. us ++ user ∷ []) v.same_users
              ∙ sym (values-append s.users_by_id _);
        })

  pub create_user-IsConsistent :
      IsConsistent s → IsConsistent (create_user login password first_name last_name s).1
  create_user-IsConsistent v = elim (Bool-cases (contains login s.users_by_login)) [
    | inl taken ↦ rw (create_user_taken taken) v
    | inr new ↦ create_user_new-IsConsistent new v
  ]

  -- In a consistent storage a login that is taken gets no id and changes nothing. A new login gets an
  -- id that no user has, and then both lookups give the new user, and what they gave for other keys.
  pub create_user_lem :
      IsConsistent s
      → ((get_by_login login s ≢ none)
          × (create_user login password first_name last_name s ≡ (none, s)))
        ⊎ ((get_by_login login s ≡ none)
            × (get_by_id (pos s.next_id) s ≡ none)
            × ((create_user login password first_name last_name s).0 ≡ some (pos s.next_id))
            × ((l : Bytes)
                → get_by_login l (create_user login password first_name last_name s).1 ≡ (
                    if login == l
                    then some (made login password first_name last_name s)
                    else get_by_login l s))
            × ((id : ℤ)
                → get_by_id id (create_user login password first_name last_name s).1 ≡ (
                    if pos s.next_id == id
                    then some (made login password first_name last_name s)
                    else get_by_id id s)))
  unfolding get_by_login get_by_id
  create_user_lem v = elim (Bool-cases (contains login s.users_by_login)) [
    | inl taken ↦ inl (taken_found login s.users_by_login taken, create_user_taken taken)
    | inr new ↦
        let no_login = find_of_contains login s.users_by_login new in
        let no_id = find_fresh s.next_id s.users_by_id v.fresh in
        inr (
          no_login,
          no_id,
          rw (create_user_new new),
          λ l. rw (create_user_new new) (find-emplace login l _ s.users_by_login no_login),
          λ id. rw (create_user_new new) (find-emplace (pos s.next_id) id _ s.users_by_id no_id),
        )
  ]

-- A history of sign-ups: login, password, first and last name of each.
abbrev pub SignUps : Type 0
SignUps = List (Bytes × Bytes × Bytes × Bytes)

unfoldable pub sign_up_all : SignUps → UsersStorage → UsersStorage
sign_up_all [] s = s
sign_up_all ((login, password, first_name, last_name) ∷ calls) s =
    sign_up_all calls (create_user login password first_name last_name s).1

sign_up_all_from-IsConsistent :
    (calls : SignUps) (s : UsersStorage) → IsConsistent s → IsConsistent (sign_up_all calls s)
unfolding sign_up_all
sign_up_all_from-IsConsistent [] s v = v
sign_up_all_from-IsConsistent ((l, p, f, n) ∷ calls) s v =
    sign_up_all_from-IsConsistent calls _ (create_user-IsConsistent l p f n s v)

-- After any history of sign-ups both maps hold the same users, each under its own login and its own id,
-- no login and no id stands twice, and every id is one that was handed out.
pub sign_up_all-IsConsistent : (calls : SignUps) → IsConsistent (sign_up_all calls new_storage)
sign_up_all-IsConsistent calls =
    sign_up_all_from-IsConsistent calls new_storage
      (record { own_login = tt; own_id = tt; fresh = tt; logins = tt; ids = tt; same_users = refl })
