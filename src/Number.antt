-- ===== src/Number.antt =====
-- Decimal numbers in texts: `std::stoll` and `std::to_string` as the handlers and the token checker use
-- them, and `ParseInt` of src/views/tasks/update.cpp.
pub mod Scan
pub mod RoundTrip
pub mod ObjectId
use leadertask_userver.Base.{
  ℕ, zero, suc, ◌+◌, ◌-◌, ◌*◌, ◌/◌, ◌%◌, ◌^◌, Bool, true, false, ◌&&◌, ◌||◌, Option, none, some,
  List, [], ◌∷◌, leb, ltb, nat_beq, if◌then◌else◌, Bytes, length, Result, ok, err,
}
use leadertask_userver.Base.Int.{ℤ, pos, negsuc, sub_ℕ}

abbrev pub is_digit : ℕ → Bool
is_digit c = leb b'0' c && leb c b'9'

-- `isspace` in the C locale.
abbrev pub is_space : ℕ → Bool
is_space c = nat_beq c b' ' || (leb 9 c && leb c 13)

unfoldable pub skip_spaces : Bytes → Bytes
skip_spaces [] = []
skip_spaces (c ∷ s) = let rest = skip_spaces s in if is_space c then rest else c ∷ s

-- The longest run of digits, read after the digits that make up `acc`, and what follows it.
unfoldable pub scan_digits : ℕ → Bytes → ℕ × Bytes
scan_digits acc [] = (acc, [])
scan_digits acc (c ∷ s) =
    let more = scan_digits (acc * 10 + (c - b'0')) s in if is_digit c then more else (acc, c ∷ s)

-- The two exceptions of `std::stoll`.
pub data StollError : Type 0 where
  invalid_argument out_of_range : StollError

abbrev pub starts_with_digit : Bytes → Bool
starts_with_digit [] = false
starts_with_digit (c ∷ s) = is_digit c

-- A magnitude with its sign as an `int64_t`.
unfoldable pub signed : Bool → ℕ → Option ℤ
signed negative v =
    if negative
    then if leb v (2 ^ 63) then some (sub_ℕ 0 v) else none
    else if ltb v (2 ^ 63)
    then some (sub_ℕ v 0)
    else none

-- The value and the position, unless the value is out of range.
abbrev pub in_range : Option ℤ → ℕ → Result StollError (ℤ × ℕ)
in_range none at = err out_of_range
in_range (some n) at = ok (n, at)

unfoldable pub stoll_tail : Bytes → Bool → Bytes → Result StollError (ℤ × ℕ)
unfolding signed
stoll_tail str negative s =
    let (v, rest) = scan_digits 0 s in
    if starts_with_digit s
    then in_range (signed negative v) (length str - length rest)
    else err invalid_argument

-- The optional sign.
abbrev pub stoll_sign : Bytes → Bytes → Result StollError (ℤ × ℕ)
stoll_sign str [] = err invalid_argument
stoll_sign str (c ∷ s) =
    if nat_beq c b'-'
    then stoll_tail str true s
    else if nat_beq c b'+'
    then stoll_tail str false s
    else stoll_tail str false (c ∷ s)

-- `std::stoll(str, &pos)`: the value, and how many characters were read.
unfoldable pub stoll : Bytes → Result StollError (ℤ × ℕ)
unfolding stoll_tail scan_digits skip_spaces
stoll str = stoll_sign str (skip_spaces str)

-- `std::stoll(str)`.
abbrev pub value_of : Result StollError (ℤ × ℕ) → Option ℤ
value_of (ok (n, at)) = some n
value_of (err e) = none

-- `ParseInt`: every exception is caught, and the whole text must be read.
unfoldable pub parse_int : Bytes → Option ℤ
unfolding stoll
parse_int value = elim (stoll value) [
  | err e ↦ none
  | ok (parsed, at) ↦ if nat_beq at (length value) then some parsed else none
]

-- The digits of `n` in front of `out`.
unfoldable pub digits : ℕ → ℕ → Bytes → Bytes
digits zero n out = out
digits (suc fuel) n out =
    let more = digits fuel (n / 10) ((b'0' + n % 10) ∷ out) in
    if ltb n 10 then (b'0' + n) ∷ out else more

unfoldable pub to_string : ℤ → Bytes
to_string (pos n) = digits (suc n) n []
to_string (negsuc n) = b'-' ∷ digits (suc (suc n)) (suc n) []
