-- ===== src/Int64/Decimal.antt =====
-- Printing an int64 and parsing it back.
use native.Mathlib.Nat.{pow-suc}
use metrify.Base.{
  ℕ, zero, suc, ◌+◌, ◌-◌, ◌*◌, ◌/◌, ◌%◌, ◌^◌, ◌<◌, ◌≡◌, refl, ◌∙◌, some, [], ◌∷◌, Bytes, arith, inl,
  inr, Bool-cases, true, ltb,
}
use metrify.Int64.{
  modulus, half, digits, format_int, is_digit, parse_digits, parse_uint, parse_int, non_negative,
  negative,
}

parse_digits-digit :
    (n d : ℕ) (s : Bytes) → d < 10 → parse_digits n ((48 + d) ∷ s) ≡ parse_digits (n * 10 + d) s
unfolding parse_digits
parse_digits-digit n d s h =
    let same : 48 + d - 48 ≡ d = omega arith in
    let digit : is_digit (48 + d) ≡ true = ground arith in rw (same, digit)

parse_digits-digits :
    (fuel n : ℕ) (acc : Bytes)
    → n < 10 ^ fuel
    → parse_digits 0 (digits fuel n acc) ≡ parse_digits n acc
unfolding digits
parse_digits-digits zero n acc h = let none_left : n ≡ 0 = omega arith in rw none_left
parse_digits-digits (suc fuel) n acc h = elim (Bool-cases (ltb n 10)) [
  | inl small ↦ rw small (parse_digits-digit 0 n acc (ground arith) ∙ ap_sum)
  | inr large ↦
      let fits : n / 10 < 10 ^ fuel = omega (arith, pow-suc 10 fuel) in
      let whole : n / 10 * 10 + n % 10 ≡ n = omega arith in
      rw large (
        parse_digits-digits fuel (n / 10) ((48 + n % 10) ∷ acc) fits
        ∙ parse_digits-digit (n / 10) (n % 10) acc (omega arith)
        ∙ rw whole)
]
  where
    ap_sum : parse_digits (0 * 10 + n) acc ≡ parse_digits n acc
    ap_sum = let same : 0 * 10 + n ≡ n = omega arith in rw same

abbrev BeginsWithDigit : Bytes → Type 0
BeginsWithDigit [] = ⊥
BeginsWithDigit (c ∷ s) = is_digit c ≡ true

digits-BeginsWithDigit :
    (fuel n d : ℕ) (acc : Bytes) → d < 10 → BeginsWithDigit (digits fuel n ((48 + d) ∷ acc))
unfolding digits
digits-BeginsWithDigit zero n d acc h = ground arith
digits-BeginsWithDigit (suc fuel) n d acc h = elim (Bool-cases (ltb n 10)) [
  | inl small ↦ rw small (ground arith)
  | inr large ↦ rw large (digits-BeginsWithDigit fuel (n / 10) (n % 10) _ (omega arith))
]

digits_nonempty : (fuel n : ℕ) → BeginsWithDigit (digits (suc fuel) n [])
unfolding digits
digits_nonempty fuel n = elim (Bool-cases (ltb n 10)) [
  | inl small ↦ rw small (ground arith)
  | inr large ↦ rw large (digits-BeginsWithDigit fuel (n / 10) (n % 10) [] (omega arith))
]

parse_uint_of_digit : (s : Bytes) → BeginsWithDigit s → parse_uint s ≡ parse_digits 0 s
unfolding parse_uint
parse_uint_of_digit [] h = elim h [ ]
parse_uint_of_digit (c ∷ s) h = refl

parse_int_of_digit : (s : Bytes) → BeginsWithDigit s → parse_int s ≡ non_negative (parse_uint s)
unfolding parse_int
parse_int_of_digit [] h = elim h [ ]
parse_int_of_digit (c ∷ s) h = ground arith

parse_int_minus : (s : Bytes) → parse_int (b'-' ∷ s) ≡ negative (parse_uint s)
unfolding parse_int
parse_int_minus s = refl

parse_uint-digits : (n : ℕ) → n < modulus → parse_uint (digits 20 n []) ≡ some n
unfolding parse_digits
parse_uint-digits n h =
    parse_uint_of_digit _ (digits_nonempty 19 n) ∙ parse_digits-digits 20 n [] (omega arith)

-- The decimal text that strconv.FormatInt gives of an int64, negative ones included, is read back
-- by strconv.ParseInt as that int64.
pub parse_int-format_int : (w : ℕ) → w < modulus → parse_int (format_int w) ≡ some w
unfolding format_int
parse_int-format_int w h = elim (Bool-cases (ltb w half)) [
  | inl positive ↦
      rw positive
        (parse_int_of_digit _ (digits_nonempty 19 w) ∙ rw (parse_uint-digits w h) (ground arith))
  | inr below_zero ↦
      rw below_zero
        (parse_int_minus _ ∙ rw (parse_uint-digits (modulus - w) (ground arith)) (ground arith))
]
