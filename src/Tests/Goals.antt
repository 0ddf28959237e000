-- ===== src/Tests/Goals.antt =====
-- A collection of goals in memory.
use leadertask_userver.Base.{
  ◌≡◌, ◌≢◌, ◌⊎◌, refl, sym, ◌↔◌, Bool, true, ◌&&◌, Option, none, some, List, [], ◌∷◌, ◌++◌, Memᴰ,
  All, if◌then◌else◌, Bool-cases, inl, inr, Bytes, length, Result, ok, err, ok-injective,
  some-injective, filter, filter-mem_iff, ◌==◌, subst, nat_beq, nat_beq_iff, arith, bytes_eq,
  bytes_beq_iff,
}
use leadertask_userver.Base.Int.{ℤ, int_eq, int_beq_iff}
use leadertask_userver.Definitions.{Exception}
use leadertask_userver.Number.ObjectId.{IsObjectId, is_hex}
use leadertask_userver.Services.GoalsCollection.{GoalsCollection, Document}
use leadertask_userver.Tests.Memory.{any, any_complete}

unfoldable pub all_hex : Bytes → Bool
all_hex [] = true
all_hex (c ∷ s) = is_hex c && all_hex s

pub all_hex_iff : (s : Bytes) → (all_hex s ≡ true) ↔ All (λ c. is_hex c ≡ true) s
unfolding all_hex
all_hex_iff [] = (λ h. tt, λ h. refl)
all_hex_iff (c ∷ s) =
    let (to, from) = all_hex_iff s in
    (λ h. (ground arith, to (ground arith)), λ (h, k). ground (arith, from k))

abbrev pub bad_oid : Exception
bad_oid = record { what = "invalid oid" }

abbrev pub duplicate : Exception
duplicate = record { what = "duplicate key" }

unfoldable pub parse_oid : Bytes → Result Exception Bytes
unfolding all_hex
parse_oid s = if nat_beq (length s) 24 && all_hex s then ok s else err bad_oid

pub parse_oid_of_text : (s : Bytes) → IsObjectId s → parse_oid s ≡ ok s
unfolding parse_oid
parse_oid_of_text s h = rw ((nat_beq_iff (length s) 24).1 h.size, (all_hex_iff s).1 h.hex) refl

pub parse_oid_ok : (s o : Bytes) → parse_oid s ≡ ok o → (length s ≡ 24) × IsObjectId o
unfolding parse_oid
parse_oid_ok s o h = elim (Bool-cases (nat_beq (length s) 24)) [
  | inl sized ↦ elim (Bool-cases (all_hex s)) [
    | inl hex ↦
        let size = (nat_beq_iff (length s) 24).0 sized in
        let same : s ≡ o = ok-injective (parse_oid s) s o (rw (sized, hex) refl) h in
        (size, subst IsObjectId same (record { size = size; hex = (all_hex_iff s).0 hex }))
    | inr other ↦ cc (rw (sized, other) at h)
  ]
  | inr other ↦ cc (rw other at h)
]

unfoldable pub insert_one : Document → List Document → Result Exception (Unit {0}) × List Document
unfolding any
insert_one d c = if any (λ e. e.oid == d.oid) c then (err duplicate, c) else (ok tt, c ++ d ∷ [])

pub insert_one_ok :
    (d : Document) (c : List Document) (u : Unit {0})
    → (insert_one d c).0 ≡ ok u
    → ((insert_one d c).1 ≡ c ++ d ∷ []) × ((e : Document) → Memᴰ e c → e.oid ≢ d.oid)
unfolding insert_one
insert_one_ok d c u h = elim (Bool-cases (any (λ e. e.oid == d.oid) c)) [
  | inl taken ↦ cc (rw taken at h)
  | inr new ↦ (
    rw new refl,
    λ e m same.
        cc (new, any_complete (λ x. x.oid == d.oid) e c m ((bytes_beq_iff e.oid d.oid).1 same)),
  )
]

pub insert_one_err :
    (d : Document) (c : List Document) (e : Exception)
    → (insert_one d c).0 ≡ err e
    → ((insert_one d c).1 ≡ c)
      ⊎ (((insert_one d c).1 ≡ c ++ d ∷ []) × ((e : Document) → Memᴰ e c → e.oid ≢ d.oid))
unfolding insert_one
insert_one_err d c e h = elim (Bool-cases (any (λ x. x.oid == d.oid) c)) [
  | inl taken ↦ inl (rw taken refl)
  | inr new ↦ cc (rw new at h)
]

abbrev pub first : List Document → Option Document
first [] = none
first (d ∷ ds) = some d

unfoldable pub find_one : Bytes → List Document → Result Exception (Option Document)
unfolding filter
find_one oid c = ok (first (filter (λ d. d.oid == oid) c))

first_mem : (ds : List Document) (d : Document) → first ds ≡ some d → Memᴰ d ds
first_mem [] d h = cc h
first_mem (e ∷ ds) d h = Memᴰ.head (sym (some-injective e d h))

first_none : (ds : List Document) → first ds ≡ none → ds ≡ []
first_none [] h = refl
first_none (e ∷ ds) h = cc h

pub find_one_some :
    (oid : Bytes) (c : List Document) (d : Document)
    → find_one oid c ≡ ok (some d)
    → Memᴰ d c × (d.oid ≡ oid)
unfolding find_one
find_one_some oid c d h =
    let found = ok-injective (find_one oid c) _ (some d) refl h in
    let (m, own) = (filter-mem_iff (λ (x : Document). x.oid == oid) d c).0 (first_mem _ d found) in
    (m, (bytes_beq_iff d.oid oid).0 own)

pub find_one_none :
    (oid : Bytes) (c : List Document)
    → find_one oid c ≡ ok none
    → (d : Document) → Memᴰ d c
    → d.oid ≢ oid
unfolding find_one
find_one_none oid c h d m own =
    let empty = first_none _ (ok-injective (find_one oid c) _ none refl h) in
    let there =
      (filter-mem_iff (λ (x : Document). x.oid == oid) d c).1
        (m, (bytes_beq_iff d.oid oid).1 own) in
    elim (subst (λ l. Memᴰ d l) empty there) [ ]

unfoldable pub find_by_user : ℤ → List Document → Result Exception (List Document)
unfolding filter
find_by_user user_id c = ok (filter (λ d. d.user_id == user_id) c)

pub find_by_user_ok :
    (user_id : ℤ) (c ds : List Document)
    → find_by_user user_id c ≡ ok ds
    → (d : Document) → Memᴰ d ds ↔ (Memᴰ d c × (d.user_id ≡ user_id))
unfolding find_by_user
find_by_user_ok user_id c ds h d =
    let same : filter (λ (x : Document). x.user_id == user_id) c ≡ ds =
      ok-injective (find_by_user user_id c) _ ds refl h in
    let (to, from) = filter-mem_iff (λ (x : Document). x.user_id == user_id) d c in
    (
      λ m.
          let (i, p) = to (subst (λ l. Memᴰ d l) (sym same) m) in
          (i, (int_beq_iff d.user_id user_id).0 p),
      λ (i, own). subst (λ l. Memᴰ d l) same (from (i, (int_beq_iff d.user_id user_id).1 own)),
    )

abbrev pub memory_goals : GoalsCollection
memory_goals = record {
  Coll = List Document;
  documents = λ c. c;
  parse_oid = parse_oid;
  insert_one = insert_one;
  find_one = find_one;
  find_by_user = find_by_user;
  parse_oid_of_text = parse_oid_of_text;
  parse_oid_ok = parse_oid_ok;
  insert_one_ok = insert_one_ok;
  insert_one_err = insert_one_err;
  find_one_some = find_one_some;
  find_one_none = find_one_none;
  find_by_user_ok = find_by_user_ok;
}
