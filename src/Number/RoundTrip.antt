-- ===== src/Number/RoundTrip.antt =====
-- `std::stoll` reads back what `std::to_string` writes, and `ParseInt` accepts no more than that.
use leadertask_userver.Base.{
  ℕ, suc, ◌-◌, ◌^◌, ◌<◌, ◌≡◌, refl, ◌∙◌, ap, Bool, true, false, some, [], ◌∷◌, if◌then◌else◌, Bytes,
  length, is_empty, arith, ok, err,
}
use leadertask_userver.Base.Int.{ℤ, pos, negsuc, IsInt64}
use leadertask_userver.Number.{
  is_digit, scan_digits, digits, stoll, stoll_tail, starts_with_digit, to_string, signed, parse_int,
  invalid_argument, in_range,
}
use leadertask_userver.Number.Scan.{scan_digits-digits, digits-starts_with_digit}

-- A text that begins with a digit has no spaces to skip and no sign.
pub stoll_of_digit :
    (d : ℕ) (s : Bytes) → is_digit d ≡ true → stoll (d ∷ s) ≡ stoll_tail (d ∷ s) false (d ∷ s)
unfolding stoll
stoll_of_digit d s h = ground arith

stoll_of_minus : (s : Bytes) → stoll (b'-' ∷ s) ≡ stoll_tail (b'-' ∷ s) true s
unfolding stoll
stoll_of_minus s = refl

pub stoll_tail_lem :
    (str : Bytes) (negative : Bool) (s : Bytes)
    → stoll_tail str negative s ≡ (
        if starts_with_digit s
        then in_range
            (signed negative (scan_digits 0 s).0)
            (length str - length (scan_digits 0 s).1)
        else err invalid_argument)
unfolding stoll_tail
stoll_tail_lem str negative s = refl

-- A run of digits that ends the text.
stoll_tail_all :
    (str : Bytes) (negative : Bool) (s : Bytes) (v : ℕ) (n : ℤ)
    → starts_with_digit s ≡ true
    → scan_digits 0 s ≡ (v, [])
    → signed negative v ≡ some n
    → stoll_tail str negative s ≡ ok (n, length str)
stoll_tail_all str negative s v n digit e f =
    rw (stoll_tail_lem str negative s, digit, e, f)
      (ap (in_range (some n)) (omega (arith, ap (λ (r : ℕ × Bytes). length r.1) e)))

stoll_all :
    (s : Bytes) (v : ℕ) (n : ℤ)
    → starts_with_digit s ≡ true
    → scan_digits 0 s ≡ (v, [])
    → signed false v ≡ some n
    → stoll s ≡ ok (n, length s)
stoll_all [] v n digit e f = cc
stoll_all (d ∷ s) v n digit e f =
    stoll_of_digit d s digit ∙ stoll_tail_all (d ∷ s) false (d ∷ s) v n digit e f

scan_digits_end : (n : ℕ) → scan_digits n [] ≡ (n, [])
unfolding scan_digits
scan_digits_end n = refl

signed_pos : (n : ℕ) → n < 2 ^ 63 → signed false n ≡ some (pos n)
unfolding signed
signed_pos n h = ground arith

signed_negsuc : (n : ℕ) → n < 2 ^ 63 → signed true (suc n) ≡ some (negsuc n)
unfolding signed
signed_negsuc n h = ground arith

-- The decimal text of every `int64_t` is read back as that number, to its end.
pub stoll-to_string : (z : ℤ) → IsInt64 z → stoll (to_string z) ≡ ok (z, length (to_string z))
unfolding to_string
stoll-to_string (pos n) h =
    stoll_all (digits (suc n) n []) n (pos n) (digits-starts_with_digit (suc n) n [] (omega arith))
      (scan_digits-digits (suc n) n [] (omega arith) ∙ scan_digits_end n) (signed_pos n h)
stoll-to_string (negsuc n) h =
    stoll_of_minus (digits (suc (suc n)) (suc n) [])
    ∙ stoll_tail_all (b'-' ∷ digits (suc (suc n)) (suc n) []) true (digits (suc (suc n)) (suc n) [])
        (suc n) (negsuc n) (digits-starts_with_digit (suc (suc n)) (suc n) [] (omega arith))
        (scan_digits-digits (suc (suc n)) (suc n) [] (omega arith) ∙ scan_digits_end (suc n))
        (signed_negsuc n h)

-- `ParseInt` reads the decimal text of every `int64_t` as that number.
pub parse_int-to_string : (z : ℤ) → IsInt64 z → parse_int (to_string z) ≡ some z
unfolding parse_int
parse_int-to_string z h = rw (stoll-to_string z h, parse_int) (ground arith)

is_empty_of_digit : (s : Bytes) → starts_with_digit s ≡ true → is_empty s ≡ false
is_empty_of_digit [] h = cc
is_empty_of_digit (c ∷ s) h = refl

pub is_empty-to_string : (z : ℤ) → is_empty (to_string z) ≡ false
unfolding to_string
is_empty-to_string (pos n) =
    is_empty_of_digit (digits (suc n) n []) (digits-starts_with_digit (suc n) n [] (omega arith))
is_empty-to_string (negsuc n) = refl
