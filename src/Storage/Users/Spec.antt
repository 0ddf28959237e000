-- ===== src/Storage/Users/Spec.antt =====
-- What `UsersStorage` of src/users_storage.hpp promises: it answers every call as one list of users does, in the
-- order of their sign-ups, but for the order in which a search gives its results.
pub mod Simulation
use leadertask_userver.Base.{
  ◌≡◌, ℕ, ◌+◌, Bool, Option, none, some, List, [], ◌∷◌, ◌++◌, Bytes, ◌==◌, bytes_eq, first, filter,
  length, Perm,
}
use leadertask_userver.Base.Int.{ℤ, pos, int_eq}
use leadertask_userver.Base.Assoc.{is_some, Iteration}
use leadertask_userver.Storage.Users.{
  UserRecord, UsersStorage, create_user, get_by_login, get_by_id, user_exists, is_match, search,
}

pub data Command : Type 0 where
  sign_up : (login password first_name last_name : Bytes) → Command
  by_login : (login : Bytes) → Command
  by_id : (user_id : ℤ) → Command
  exists : (user_id : ℤ) → Command
  search_for : (login first_mask last_mask : Option Bytes) → Command

pub data Reply : Type 0 where
  signed_up : Option ℤ → Reply
  found : Option UserRecord → Reply
  known : Bool → Reply
  matches : List UserRecord → Reply

-- The method of a command.
unfoldable pub perform : Iteration Bytes UserRecord → Command → UsersStorage → Reply × UsersStorage
perform it (sign_up login password first_name last_name) s =
    let (id, s') = create_user login password first_name last_name s in (signed_up id, s')
perform it (by_login login) s = (found (get_by_login login s), s)
perform it (by_id user_id) s = (found (get_by_id user_id s), s)
perform it (exists user_id) s = (known (user_exists user_id s), s)
perform it (search_for login first_mask last_mask) s =
    (matches (search it login first_mask last_mask s), s)

abbrev pub has_login : Bytes → UserRecord → Bool
has_login login u = u.login == login

abbrev pub has_id : ℤ → UserRecord → Bool
has_id user_id u = u.id == user_id

-- A login that is taken is refused; else the user is added.
abbrev pub signed_up_in :
    Bytes → Bytes → Bytes → Bytes → List UserRecord → Option UserRecord → Reply × List UserRecord
signed_up_in login password first_name last_name rows (some u) = (signed_up none, rows)
signed_up_in login password first_name last_name rows none = (
  signed_up (some (pos (length rows + 1))),
  rows
      ++ record {
        id = pos (length rows + 1);
        login = login;
        password = password;
        first_name = first_name;
        last_name = last_name;
      }
        ∷ [],
)

-- The same command on a list of users: the ids count the users from 1.
unfoldable pub answer : Command → List UserRecord → Reply × List UserRecord
answer (sign_up login password first_name last_name) rows =
    signed_up_in login password first_name last_name rows (first (has_login login) rows)
answer (by_login login) rows = (found (first (has_login login) rows), rows)
answer (by_id user_id) rows = (found (first (has_id user_id) rows), rows)
answer (exists user_id) rows = (known (is_some (first (has_id user_id) rows)), rows)
answer (search_for login first_mask last_mask) rows =
    (matches (filter (is_match login first_mask last_mask) rows), rows)

-- The replies are the same, the results of a search up to their order.
abbrev pub Agree : Reply → Reply → Type 0
Agree (matches us) (matches vs) = Perm us vs
Agree r q = r ≡ q

-- The replies to two sequences of commands.
abbrev pub AllAgree : List Reply → List Reply → Type 0
AllAgree [] [] = Unit
AllAgree (r ∷ rs) (q ∷ qs) = Agree r q × AllAgree rs qs
AllAgree _ _ = ⊥

unfoldable pub perform_all : Iteration Bytes UserRecord → List Command → UsersStorage → List Reply
unfolding perform
perform_all it [] s = []
perform_all it (call ∷ calls) s = (perform it call s).0 ∷ perform_all it calls (perform it call s).1

unfoldable pub answer_all : List Command → List UserRecord → List Reply
unfolding answer
answer_all [] rows = []
answer_all (call ∷ calls) rows = (answer call rows).0 ∷ answer_all calls (answer call rows).1
