-- ===== src/Substring/Like.antt =====
-- LIKE with a mask that has no special character is a search for the mask.
use mathlib.Core.Path.{fun_ext}
use leadertask_userver.Base.{
  ℕ, ◌≡◌, refl, ◌∙◌, ap, Bool, true, false, [], ◌∷◌, ◌++◌, nat_beq, if◌then◌else◌, Bytes, is_empty,
  arith, All, map,
}
use leadertask_userver.Base.Assoc.{is_some}
use leadertask_userver.Substring.{
  has_prefix, find_sub, any_text, exactly, parts, some_end, like_parts, like, containing,
}

-- No `%`, `_` or backslash.
abbrev pub is_plain : ℕ → Bool
is_plain c =
    if nat_beq c b'%'
    then false
    else if nat_beq c b'_'
    then false
    else if nat_beq c 92
    then false
    else true

abbrev pub IsPlain : Bytes → Type 0
IsPlain m = All (λ c. is_plain c ≡ true) m

parts-plain : (m : Bytes) → IsPlain m → parts (m ++ b'%' ∷ []) ≡ map exactly m ++ any_text ∷ []
unfolding parts
parts-plain [] h = refl
parts-plain (c ∷ []) h = ground arith
parts-plain (c ∷ d ∷ m) h = ground (arith, parts-plain (d ∷ m) h.1)

some_end-empty : (s : Bytes) → some_end is_empty s ≡ true
unfolding some_end
some_end-empty [] = refl
some_end-empty (c ∷ s) = some_end-empty s

like_prefix : (m s : Bytes) → like_parts (map exactly m ++ any_text ∷ []) s ≡ has_prefix m s
unfolding like_parts has_prefix
like_prefix [] s = some_end-empty s
like_prefix (a ∷ m) [] = refl
like_prefix (a ∷ m) (c ∷ s) = ground (arith, like_prefix m s)

some_end-has_prefix : (m s : Bytes) → some_end (has_prefix m) s ≡ is_some (find_sub m s)
unfolding some_end find_sub
some_end-has_prefix m [] = ground arith
some_end-has_prefix m (c ∷ s) = ground (arith, some_end-has_prefix m s)

parts-containing :
    (m : Bytes) → IsPlain m → parts (containing m) ≡ any_text ∷ (map exactly m ++ any_text ∷ [])
unfolding parts
parts-containing [] h = refl
parts-containing (c ∷ m) h = ap (λ ps. any_text ∷ ps) (parts-plain (c ∷ m) h)

-- `s LIKE '%' || m || '%'` is `s.find(m) != npos` for every mask without special characters.
pub like-containing : (m s : Bytes) → IsPlain m → like (containing m) s ≡ is_some (find_sub m s)
unfolding like like_parts
like-containing m s h =
    ap (λ ps. like_parts ps s) (parts-containing m h)
    ∙ ap (λ test. some_end test s) (fun_ext (like_prefix m))
    ∙ some_end-has_prefix m s
