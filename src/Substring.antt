-- ===== src/Substring.antt =====
-- Text search as the program uses it: `std::string::find` in src/users_storage.hpp, and the operator
-- LIKE of the statement in `UsersRepository::Search`, src/repositories/users_repository.cpp.
pub mod Find
pub mod Like
use mathlib.Core.Option
use leadertask_userver.Base.{
  ℕ, suc, Bool, true, false, ◌&&◌, ◌||◌, Option, none, some, List, [], ◌∷◌, ◌++◌, nat_beq,
  if◌then◌else◌, Bytes, is_empty,
}

unfoldable pub has_prefix : Bytes → Bytes → Bool
has_prefix [] s = true
has_prefix (a ∷ m) [] = false
has_prefix (a ∷ m) (c ∷ s) = nat_beq a c && has_prefix m s

-- `s.find(m)`: the first place of `m` in `s`; `none` is `npos`.
unfoldable pub find_sub : Bytes → Bytes → Option ℕ
unfolding has_prefix
find_sub m [] = if has_prefix m [] then some 0 else none
find_sub m (c ∷ s) =
    let later = Option.map suc (find_sub m s) in if has_prefix m (c ∷ s) then some 0 else later

-- The parts of a LIKE pattern: `%`, `_`, and a character, which may be written with a backslash before
-- it. (A backslash at the very end is an error of the statement. The patterns of the program end in
-- `%`, so none of theirs ends so; here it stands for itself.)
pub data Part : Type 0 where
  any_text any_char : Part
  exactly : ℕ → Part

abbrev part_of : ℕ → Part
part_of c = if nat_beq c b'%' then any_text else if nat_beq c b'_' then any_char else exactly c

unfoldable pub parts : Bytes → List Part
parts [] = []
parts (c ∷ []) = part_of c ∷ []
parts (c ∷ d ∷ p) =
    let escaped = exactly d ∷ parts p in
    let plain = part_of c ∷ parts (d ∷ p) in if nat_beq c 92 then escaped else plain

-- Whether some end of the text passes.
unfoldable pub some_end : (Bytes → Bool) → Bytes → Bool
some_end test [] = test []
some_end test (c ∷ s) = test (c ∷ s) || some_end test s

unfoldable pub like_parts : List Part → Bytes → Bool
unfolding some_end
like_parts [] s = is_empty s
like_parts (any_text ∷ ps) s = some_end (like_parts ps) s
like_parts (any_char ∷ ps) [] = false
like_parts (any_char ∷ ps) (c ∷ s) = like_parts ps s
like_parts (exactly a ∷ ps) [] = false
like_parts (exactly a ∷ ps) (c ∷ s) = nat_beq a c && like_parts ps s

-- `s LIKE pattern`.
unfoldable pub like : Bytes → Bytes → Bool
unfolding like_parts parts
like pattern_text s = like_parts (parts pattern_text) s

-- `'%' || mask || '%'`.
abbrev pub containing : Bytes → Bytes
containing mask = b'%' ∷ (mask ++ b'%' ∷ [])
