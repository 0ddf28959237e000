-- ===== src/Storage/Users/Spec/Simulation.antt =====
-- `UsersStorage` of src/users_storage.hpp answers as the list of users does.
use leadertask_userver.Base.{
  ◌≡◌, refl, sym, ◌∙◌, ap, ◌+◌, Option, none, some, List, [], ◌∷◌, ◌++◌, inl, inr, Option-cases,
  Bytes, bytes_eq, first, filter, filter-Permᴰ, length, length-append, Permᴰ, subst,
}
use leadertask_userver.Base.Int.{ℤ, pos, int_eq}
use leadertask_userver.Base.Assoc.{find, contains, is_some, Iteration}
use leadertask_userver.Base.Assoc.Entries.{
  values, values-append, values-Permᴰ, find-values, emplace_fresh,
}
use leadertask_userver.Storage.Users.{
  UserRecord, UsersStorage, new_storage, create_user, get_by_login, get_by_id, user_exists,
  is_match, search,
}
use leadertask_userver.Storage.Users.Methods.{
  IsConsistent, made, create_user_taken, create_user_new, create_user-IsConsistent, find_fresh,
}
use leadertask_userver.Storage.Users.Search.{search_loop-filter}
use leadertask_userver.Storage.Users.Spec.{
  Command, sign_up, by_login, by_id, exists, search_for, Reply, signed_up, found, known, perform,
  has_login, has_id, signed_up_in, answer, Agree, AllAgree, perform_all, answer_all,
}

-- The storage stands for the list.
record Represents (s : UsersStorage) (rows : List UserRecord) : Type 0 where
  consistent : IsConsistent s
  stored : values s.users_by_id ≡ rows
  count : s.next_id ≡ length rows + 1

abbrev Simulates : Reply × UsersStorage → Reply × List UserRecord → Type 0
Simulates (r, s) (q, rows) = Agree r q × Represents s rows

module _ (s : UsersStorage) (rows : List UserRecord) (v : Represents s rows) where
  found_login : (login : Bytes) → find login s.users_by_login ≡ first (has_login login) rows
  found_login login =
      find-values (λ u. u.login) login s.users_by_login v.consistent.own_login
      ∙ ap (first (has_login login)) (v.consistent.same_users ∙ v.stored)

  found_id : (user_id : ℤ) → find user_id s.users_by_id ≡ first (has_id user_id) rows
  found_id user_id =
      find-values (λ u. u.id) user_id s.users_by_id v.consistent.own_id
      ∙ ap (first (has_id user_id)) v.stored

  module _ (login password first_name last_name : Bytes) where
    new-Simulates :
        find login s.users_by_login ≡ none
        → Simulates
            (
              signed_up (create_user login password first_name last_name s).0,
              (create_user login password first_name last_name s).1,
            )
            (signed_up_in login password first_name last_name rows none)
    unfolding contains
    new-Simulates missing =
        let user = made login password first_name last_name s in
        let created = create_user_new login password first_name last_name s (ap is_some missing) in
        let no_id = find_fresh s.next_id s.users_by_id v.consistent.fresh in
        (
          rw created (ap (λ n. signed_up (some (pos n))) v.count),
          record {
            consistent =
                create_user-IsConsistent login password first_name last_name s v.consistent;
            stored =
                ap (λ (q : Option ℤ × UsersStorage). values q.1.users_by_id) created
                ∙ ap values (emplace_fresh (pos s.next_id) user s.users_by_id no_id)
                ∙ values-append s.users_by_id ((pos s.next_id, user) ∷ [])
                ∙ (λ i. v.stored i ++ record user { id = pos (v.count i) } ∷ []);
            count =
                ap (λ (q : Option ℤ × UsersStorage). q.1.next_id) created
                ∙ ap (λ n. n + 1) (v.count ∙ sym (length-append rows (_ ∷ [])));
          },
        )

    sign_up-Simulates :
        (it : Iteration Bytes UserRecord)
        → Simulates
            (perform it (sign_up login password first_name last_name) s)
            (answer (sign_up login password first_name last_name) rows)
    unfolding perform answer contains
    sign_up-Simulates it = elim (Option-cases (find login s.users_by_login)) [
      | inl missing ↦ rw (sym (found_login login) ∙ missing) (new-Simulates missing)
      | inr (u, taken) ↦
          rw
            (
              sym (found_login login) ∙ taken,
              create_user_taken login password first_name last_name s (ap is_some taken),
            )
            (refl, v)
    ]

  perform-Simulates :
      (it : Iteration Bytes UserRecord) (call : Command)
      → Simulates (perform it call s) (answer call rows)
  unfolding perform answer get_by_login get_by_id user_exists contains search
  perform-Simulates it (sign_up login password first_name last_name) =
      sign_up-Simulates login password first_name last_name it
  perform-Simulates it (by_login login) = (ap (λ o. found o) (found_login login), v)
  perform-Simulates it (by_id user_id) = (ap (λ o. found o) (found_id user_id), v)
  perform-Simulates it (exists user_id) = (ap (λ o. known (is_some o)) (found_id user_id), v)
  perform-Simulates it (search_for l f n) =
      let test = is_match l f n in
      let met = it.order s.users_by_login in
      let perm : Permᴰ (filter test (values met)) (filter test (values s.users_by_login)) =
        filter-Permᴰ test _ _ (values-Permᴰ met s.users_by_login (it.permuted s.users_by_login)) in
      (
        rw (search_loop-filter l f n met) (
            ∣ subst (λ us. Permᴰ (filter test (values met)) (filter test us))
              (v.consistent.same_users ∙ v.stored) perm ∣₁),
        v,
      )

perform_all_from :
    (it : Iteration Bytes UserRecord) (calls : List Command) (s : UsersStorage)
    (rows : List UserRecord)
    → Represents s rows
    → AllAgree (perform_all it calls s) (answer_all calls rows)
unfolding perform_all answer_all
perform_all_from it [] s rows v = tt
perform_all_from it (call ∷ calls) s rows v =
    let (same, next) = perform-Simulates s rows v it call in
    (same, perform_all_from it calls _ _ next)

-- To any sequence of calls of its five methods a new storage gives the replies that a list of users gives, whatever
-- the order of iteration is: a sign-up with a login that a user has is refused, any other appends a user whose id
-- is its place; a lookup gives the first with the login or the id; a search gives the users that pass its
-- three tests, in some order.
pub perform_all-AllAgree :
    (it : Iteration Bytes UserRecord) (calls : List Command)
    → AllAgree (perform_all it calls new_storage) (answer_all calls [])
perform_all-AllAgree it calls = perform_all_from it calls new_storage [] (record {
  consistent = record {
    own_login = tt;
    own_id = tt;
    fresh = tt;
    logins = tt;
    ids = tt;
    same_users = refl;
  };
  stored = refl;
  count = refl;
})
