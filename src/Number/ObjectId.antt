-- ===== src/Number/ObjectId.antt =====
-- The path argument `goalId`: the handlers read a Mongo object id (24 hexadecimal digits) as a decimal
-- number, by `std::stoll` in src/views/tasks/create.cpp and list.cpp and by `ParseInt` in update.cpp.
use leadertask_userver.Base.{
  ℕ, ◌+◌, ◌-◌, ◌*◌, ◌^◌, ◌≤◌, ◌≡◌, refl, ◌∙◌, ap, sym, ◌≢◌, Bool, true, false, ◌&&◌, ◌||◌, none, [],
  ◌∷◌, ◌++◌, leb, Bytes, length, length-append, List-cases, ◌⊎◌, arith, inl, inr, Bool-cases, All,
  err,
}
use leadertask_userver.Number.{
  is_digit, scan_digits, stoll, signed, parse_int, invalid_argument, in_range,
}
use leadertask_userver.Number.Scan.{
  AllDigits, digits_value, scan_digits-append, scan_digits_ge, scan_digits-digit,
  length-scan_digits,
}
use leadertask_userver.Number.RoundTrip.{stoll_of_digit, stoll_tail_lem}

-- A digit or a letter from `a` to `f`.
abbrev pub is_hex : ℕ → Bool
is_hex c = is_digit c || (leb b'a' c && leb c b'f')

-- The text of a Mongo object id.
pub record IsObjectId (s : Bytes) : Type 0 where
  pub size : length s ≡ 24
  pub hex : All (λ c. is_hex c ≡ true) s

-- A letter is no number.
stoll_of_letter :
    (c : ℕ) (s : Bytes)
    → is_hex c ≡ true
    → is_digit c ≡ false
    → stoll (c ∷ s) ≡ err invalid_argument
unfolding stoll
stoll_of_letter c s hex letter = ground arith

-- A decimal text of 24 places is above the range.
signed_large : (v : ℕ) → 10 ^ 23 ≤ v → signed false v ≡ none
unfolding signed
signed_large v h = ground arith

-- What `std::stoll` makes of digits with something else behind them.
stoll_of_digits :
    (ds : Bytes) (c : ℕ) (t : Bytes)
    → AllDigits ds
    → ds ≢ []
    → is_digit c ≡ false
    → stoll (ds ++ c ∷ t) ≡ in_range (signed false (digits_value 0 ds)) (length ds)
stoll_of_digits [] c t all some_digit stop = absurd (some_digit refl)
stoll_of_digits (d ∷ ds) c t (digit, all) some_digit stop =
    rw
      (
        stoll_of_digit d (ds ++ c ∷ t) digit,
        stoll_tail_lem (d ∷ (ds ++ c ∷ t)) false (d ∷ (ds ++ c ∷ t)),
        scan_digits-append 0 (d ∷ ds) c t (digit, all) stop,
        digit,
      )
      (ap (in_range (signed false (digits_value 0 (d ∷ ds)))) (
        omega (
          arith,
          length-append ds (c ∷ t),
          ap (λ (r : ℕ × Bytes). length r.1) (scan_digits-append 0 (d ∷ ds) c t (digit, all) stop),
        )))

-- `std::stoll` reads only the decimal digits in front of the first other character: texts that agree up
-- to there give the same number and the same position.
pub stoll_prefix :
    (ds : Bytes) (c c' : ℕ) (t t' : Bytes)
    → AllDigits ds
    → ds ≢ []
    → is_digit c ≡ false
    → is_digit c' ≡ false
    → stoll (ds ++ c ∷ t) ≡ stoll (ds ++ c' ∷ t')
stoll_prefix ds c c' t t' all some_digit stop stop' =
    stoll_of_digits ds c t all some_digit stop ∙ sym (stoll_of_digits ds c' t' all some_digit stop')

-- A text that begins with a digit is refused unless it is read to its end and in range.
parse_int_partial :
    (d : ℕ) (s : Bytes)
    → is_digit d ≡ true
    → ((scan_digits 0 (d ∷ s)).1 ≢ []) ⊎ (signed false (scan_digits 0 (d ∷ s)).0 ≡ none)
    → parse_int (d ∷ s) ≡ none
unfolding parse_int
parse_int_partial d s digit why =
    rw (stoll_of_digit d s digit, stoll_tail_lem (d ∷ s) false (d ∷ s), digit, parse_int)
      (ground (arith, length-scan_digits 0 (d ∷ s)))

large :
    (c : ℕ) (s : Bytes)
    → is_digit c ≡ true
    → c ≢ b'0'
    → length s ≡ 23
    → (scan_digits 0 (c ∷ s)).1 ≡ []
    → 10 ^ 23 ≤ (scan_digits 0 (c ∷ s)).0
large c s digit nonzero size all =
    let first = scan_digits-digit 0 c s digit in
    let read =
      scan_digits_ge (0 * 10 + (c - b'0')) s (ap (λ (r : ℕ × Bytes). r.1) (sym first) ∙ all) in
    let places : 10 ^ 23 ≤ (0 * 10 + (c - b'0')) * 10 ^ length s = rw size (ground arith) in
    omega (arith, ap (λ (r : ℕ × Bytes). r.0) first, read, places)

-- `ParseInt` refuses every object id that does not begin with a zero. (One that begins with a zero was
-- made in the first eight and a half years of the Unix epoch.)
pub parse_int-IsObjectId :
    (c : ℕ) (s : Bytes) → IsObjectId (c ∷ s) → c ≢ b'0' → parse_int (c ∷ s) ≡ none
unfolding parse_int
parse_int-IsObjectId c s h nonzero = elim (Bool-cases (is_digit c)) [
  | inl digit ↦ parse_int_partial c s digit (elim (List-cases (scan_digits 0 (c ∷ s)).1) [
    | inl all ↦ inr (signed_large _ (large c s digit nonzero (omega (arith, h.size)) all))
    | inr some_left ↦ inl some_left
  ])
  | inr letter ↦ rw (stoll_of_letter c s h.hex.0 letter, parse_int)
]
