-- ===== src/Number/Scan.antt =====
-- What a run of digits stands for.
use native.Mathlib.Nat.{pow-suc}
use leadertask_userver.Base.{
  ℕ, zero, suc, ◌+◌, ◌-◌, ◌*◌, ◌/◌, ◌%◌, ◌^◌, ◌≤◌, ◌<◌, ◌≡◌, ◌∙◌, ap, true, false, [], ◌∷◌, ◌++◌,
  ltb, Bytes, length, arith, inl, inr, Bool-cases, All,
}
use leadertask_userver.Number.{is_digit, scan_digits, digits, starts_with_digit}

pub length-scan_digits : (acc : ℕ) (s : Bytes) → length (scan_digits acc s).1 ≤ length s
unfolding scan_digits
length-scan_digits acc [] = omega arith
length-scan_digits acc (c ∷ s) = ground (arith, length-scan_digits (acc * 10 + (c - b'0')) s)

pub scan_digits-digit :
    (acc c : ℕ) (s : Bytes)
    → is_digit c ≡ true
    → scan_digits acc (c ∷ s) ≡ scan_digits (acc * 10 + (c - b'0')) s
unfolding scan_digits
scan_digits-digit acc c s digit = rw digit

-- A text that is read to its end has at least one decimal place for each character.
pub scan_digits_ge :
    (acc : ℕ) (s : Bytes) → (scan_digits acc s).1 ≡ [] → acc * 10 ^ length s ≤ (scan_digits acc s).0
unfolding scan_digits
scan_digits_ge acc [] h = omega arith
scan_digits_ge acc (c ∷ s) h = elim (Bool-cases (is_digit c)) [
  | inl digit ↦ rw digit (
      omega (
        arith,
        ap (λ (p : ℕ). acc * p) (pow-suc 10 (length s)),
        scan_digits_ge (acc * 10 + (c - b'0')) s (rw (digit, scan_digits) at h),
      ))
  | inr other ↦ cc (rw (other, scan_digits) at h)
]

-- The number that a run of digits adds to those that make up `acc`.
abbrev pub digits_value : ℕ → Bytes → ℕ
digits_value acc [] = acc
digits_value acc (d ∷ ds) = digits_value (acc * 10 + (d - b'0')) ds

abbrev pub AllDigits : Bytes → Type 0
AllDigits ds = All (λ d. is_digit d ≡ true) ds

-- A run of digits is read to its end, whatever follows.
pub scan_digits-append :
    (acc : ℕ) (ds : Bytes) (c : ℕ) (t : Bytes)
    → AllDigits ds
    → is_digit c ≡ false
    → scan_digits acc (ds ++ c ∷ t) ≡ (digits_value acc ds, c ∷ t)
unfolding scan_digits
scan_digits-append acc [] c t all stop = rw stop
scan_digits-append acc (d ∷ ds) c t (digit, all) stop =
    rw digit (scan_digits-append (acc * 10 + (d - b'0')) ds c t all stop)

-- Enough fuel: the digits that are written are read back.
pub scan_digits-digits :
    (fuel n : ℕ) (out : Bytes) → n < fuel → scan_digits 0 (digits fuel n out) ≡ scan_digits n out
unfolding digits
scan_digits-digits zero n out h = elim h [ ]
scan_digits-digits (suc fuel) n out h = elim (Bool-cases (ltb n 10)) [
  | inl small ↦ rw small (
      scan_digits-digit 0 (b'0' + n) out (ground arith) ∙ ap (λ v. scan_digits v out) (omega arith))
  | inr big ↦ rw big (
      scan_digits-digits fuel (n / 10) ((b'0' + n % 10) ∷ out) (ground arith)
      ∙ scan_digits-digit (n / 10) (b'0' + n % 10) out (ground arith)
      ∙ ap (λ v. scan_digits v out) (omega arith))
]

-- What is written begins with a digit.
pub digits-starts_with_digit :
    (fuel n : ℕ) (out : Bytes) → n < fuel → starts_with_digit (digits fuel n out) ≡ true
unfolding digits
digits-starts_with_digit zero n out h = elim h [ ]
digits-starts_with_digit (suc fuel) n out h = elim (Bool-cases (ltb n 10)) [
  | inl small ↦ rw small (ground arith)
  | inr big ↦ rw big (digits-starts_with_digit fuel (n / 10) ((b'0' + n % 10) ∷ out) (ground arith))
]
