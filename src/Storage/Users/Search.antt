-- ===== src/Storage/Users/Search.antt =====
-- What `UsersStorage::Search` finds.
use leadertask_userver.Base.{
  ◌≡◌, refl, ◌↔◌, true, false, Option, none, some, List, [], ◌∷◌, Memᴰ, Bytes, bytes_eq,
  bytes_beq_iff, arith, mem-Permᴰ, filter, filter-mem_iff,
}
use leadertask_userver.Base.Int.{int_eq}
use mathlib.Core.List.Permᴰ
use leadertask_userver.Base.Assoc.{Iteration}
use leadertask_userver.Base.Assoc.Entries.{values, values-Permᴰ, mem-values_iff}
use leadertask_userver.Substring.Find.{IsInfix, find_sub_iff}
use leadertask_userver.Storage.Users.{
  UserRecord, UsersStorage, get_by_id, is_match, search, search_loop, login_differs, mask_missing,
}
use leadertask_userver.Storage.Users.Methods.{IsConsistent}

abbrev pub HasLogin : Option Bytes → UserRecord → Type 0
HasLogin none u = Unit
HasLogin (some login) u = u.login ≡ login

abbrev pub Contains : Option Bytes → Bytes → Type 0
Contains none name = Unit
Contains (some mask) name = IsInfix mask name

-- The three filters that a search may give: an exact login, and a text that each name contains.
pub record IsWanted (l f n : Option Bytes) (u : UserRecord) : Type 0 where
  pub login : HasLogin l u
  pub first : Contains f u.first_name
  pub last : Contains n u.last_name

login_differs_iff : (l : Option Bytes) (u : UserRecord) → (login_differs l u ≡ false) ↔ HasLogin l u
login_differs_iff none u = (λ h. tt, λ h. refl)
login_differs_iff (some l) u = ground (arith, bytes_beq_iff u.login l)

mask_missing_iff :
    (m : Option Bytes) (name : Bytes) → (mask_missing m name ≡ false) ↔ Contains m name
mask_missing_iff none name = (λ h. tt, λ h. refl)
mask_missing_iff (some m) name =
    let (to, from) = find_sub_iff m name in (λ h. to (ground arith), λ i. ground (arith, from i))

is_match_iff :
    (l f n : Option Bytes) (u : UserRecord)
    → (is_match l f n u ≡ true) ↔ (
        (login_differs l u ≡ false)
        × (mask_missing f u.first_name ≡ false)
        × (mask_missing n u.last_name ≡ false))
unfolding is_match
is_match_iff l f n u = ground arith

pub search_loop-filter :
    (l f n : Option Bytes) (m : List (Bytes × UserRecord))
    → search_loop l f n m ≡ filter (is_match l f n) (values m)
unfolding search_loop filter
search_loop-filter l f n [] = refl
search_loop-filter l f n ((k, u) ∷ m) = ground (arith, search_loop-filter l f n m)

is_match-IsWanted :
    (l f n : Option Bytes) (u : UserRecord) → (is_match l f n u ≡ true) ↔ IsWanted l f n u
is_match-IsWanted l f n u = (
  λ h.
      let (a, b, c) = (is_match_iff l f n u).0 h in
      record {
        login = (login_differs_iff l u).0 a;
        first = (mask_missing_iff f u.first_name).0 b;
        last = (mask_missing_iff n u.last_name).0 c;
      },
  λ w. (is_match_iff l f n u).1 (
    (login_differs_iff l u).1 w.login,
    (mask_missing_iff f u.first_name).1 w.first,
    (mask_missing_iff n u.last_name).1 w.last,
  ),
)

-- In a consistent storage a search returns exactly the users that are stored and that meet every filter
-- that is given, whatever the order of iteration is: the login is the same, and each name contains its mask.
pub search-mem_iff :
    (it : Iteration Bytes UserRecord) (l f n : Option Bytes) (s : UsersStorage) (u : UserRecord)
    → IsConsistent s
    → Memᴰ u (search it l f n s) ↔ ((get_by_id u.id s ≡ some u) × IsWanted l f n u)
unfolding search get_by_id
search-mem_iff it l f n s u v =
    let stored = mem-values_iff (λ w. w.id) u s.users_by_id v.own_id v.ids in
    let met = it.order s.users_by_login in
    let passed = filter-mem_iff (is_match l f n) u (values met) in
    let perm = values-Permᴰ met s.users_by_login (it.permuted s.users_by_login) in
    let wanted = is_match-IsWanted l f n u in
    (
      λ i.
          let (j, p) = passed.0 (rw (search_loop-filter l f n met) at i) in
          let there : Memᴰ u (values s.users_by_login) = mem-Permᴰ u _ _ perm j in
          (stored.0 (rw v.same_users at there), wanted.0 p),
      λ (e, w).
          rw (search_loop-filter l f n met) (
            passed.1
              (mem-Permᴰ u _ _ (Permᴰ.symm perm) (rw v.same_users (stored.1 e)), wanted.1 w)),
    )
