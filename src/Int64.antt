-- ===== src/Int64.antt =====
-- Go's int64 as its bit pattern, a number below 2 ^ 64, and the decimal forms that the program
-- takes from strconv: FormatInt and ParseInt at base 10 and 64 bits.
pub mod Decimal
use metrify.Base.{
  ℕ, zero, suc, ◌+◌, ◌-◌, ◌*◌, ◌/◌, ◌%◌, ◌^◌, Bool, ◌&&◌, not, Option, none, some, List, [], ◌∷◌,
  Bytes, ltb, leb, nat_eq, if◌then◌else◌,
}

abbrev pub modulus : ℕ
modulus = 2 ^ 64

abbrev pub half : ℕ
half = 2 ^ 63

-- n > 0
abbrev pub is_positive : ℕ → Bool
is_positive n = not (nat_eq n 0) && ltb n half

-- Addition wraps round.
unfoldable pub add64 : ℕ → ℕ → ℕ
add64 a b = (a + b) % modulus

-- The digits of `n`, most significant first, before `acc`: at most as many as there is fuel.
unfoldable pub digits : ℕ → ℕ → Bytes → Bytes
digits zero n acc = acc
digits (suc fuel) n acc =
    let more = digits fuel (n / 10) ((48 + n % 10) ∷ acc) in
    if ltb n 10 then (48 + n) ∷ acc else more

-- The largest int64 has 19 digits.
unfoldable pub format_int : ℕ → Bytes
unfolding digits
format_int w = if ltb w half then digits 20 w [] else b'-' ∷ digits 20 (modulus - w) []

abbrev pub is_digit : ℕ → Bool
is_digit c = leb 48 c && leb c 57

unfoldable pub parse_digits : ℕ → Bytes → Option ℕ
parse_digits n [] = some n
parse_digits n (c ∷ s) =
    let more = parse_digits (n * 10 + (c - 48)) s in if is_digit c then more else none

unfoldable pub parse_uint : Bytes → Option ℕ
unfolding parse_digits
parse_uint [] = none
parse_uint (c ∷ s) = parse_digits 0 (c ∷ s)

abbrev pub non_negative : Option ℕ → Option ℕ
non_negative none = none
non_negative (some n) = if ltb n half then some n else none

-- Two's complement, where `-0` is 0.
abbrev pub negative : Option ℕ → Option ℕ
negative none = none
negative (some n) = if leb n half then some ((modulus - n) % modulus) else none

unfoldable pub parse_int : Bytes → Option ℕ
unfolding parse_uint
parse_int [] = none
parse_int (c ∷ s) =
    if nat_eq c b'-'
    then negative (parse_uint s)
    else if nat_eq c b'+'
    then non_negative (parse_uint s)
    else non_negative (parse_uint (c ∷ s))
