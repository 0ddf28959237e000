-- ===== src/Substring/Find.antt =====
-- What `std::string::find` decides.
use leadertask_userver.Base.{
  ◌≡◌, refl, ap, ◌↔◌, true, [], ◌∷◌, ◌++◌, Bytes, Bool-cases, inl, inr, arith,
}
use leadertask_userver.Base.Assoc.{is_some}
use leadertask_userver.Substring.{has_prefix, find_sub}

-- `s` is `before`, then `m`, then `behind`.
pub record IsInfix (m s : Bytes) : Type 0 where
  pub before : Bytes
  pub behind : Bytes
  pub split : s ≡ before ++ (m ++ behind)

has_prefix_sound : (m s : Bytes) → has_prefix m s ≡ true → (t : Bytes) × (s ≡ m ++ t)
unfolding has_prefix
has_prefix_sound [] s h = (s, refl)
has_prefix_sound (a ∷ m) [] h = cc
has_prefix_sound (a ∷ m) (c ∷ s) h =
    let (t, e) = has_prefix_sound m s (ground arith) in (t, ground (arith, e))

pub has_prefix-append : (m t : Bytes) → has_prefix m (m ++ t) ≡ true
unfolding has_prefix
has_prefix-append [] t = refl
has_prefix-append (a ∷ m) t = ground (arith, has_prefix-append m t)

find_sound : (m s : Bytes) → is_some (find_sub m s) ≡ true → IsInfix m s
unfolding find_sub
find_sound m [] h =
    let (t, e) = has_prefix_sound m [] (ground arith) in
    record { before = []; behind = t; split = e }
find_sound m (c ∷ s) h = elim (Bool-cases (has_prefix m (c ∷ s))) [
  | inl here ↦
      let (t, e) = has_prefix_sound m (c ∷ s) here in record { before = []; behind = t; split = e }
  | inr later ↦
      let i = find_sound m s (ground arith) in
      record { before = c ∷ i.before; behind = i.behind; split = ap (λ r. c ∷ r) i.split }
]

find_here : (m s : Bytes) → has_prefix m s ≡ true → is_some (find_sub m s) ≡ true
unfolding find_sub
find_here m [] h = ground arith
find_here m (c ∷ s) h = ground arith

find_complete : (m before behind : Bytes) → is_some (find_sub m (before ++ (m ++ behind))) ≡ true
unfolding find_sub
find_complete m [] behind = find_here m (m ++ behind) (has_prefix-append m behind)
find_complete m (c ∷ before) behind = ground (arith, find_complete m before behind)

-- `find` succeeds exactly if the text occurs.
pub find_sub_iff : (m s : Bytes) → (is_some (find_sub m s) ≡ true) ↔ IsInfix m s
find_sub_iff m s = (find_sound m s, λ i. rw i.split (find_complete m i.before i.behind))
