-- ===== src/Clib/Number.antt =====
-- stdlib.h: strtoull, strtoul and strtol with base 0 on a 64-bit machine. A result is the 64-bit
-- pattern that is returned.
pub mod RoundTrip
use scsi_cli.Prelude.{
  Bool, Option, Text, [], arith, false, if◌then◌else◌, leb, ltb, min, none, some, true, ℕ, ◌%◌,
  ◌&&◌, ◌*◌, ◌+◌, ◌-◌, ◌<◌, ◌==◌, ◌^◌, ◌||◌, ◌∷◌,
}

abbrev pub is_space : ℕ → Bool
is_space c = c == 32 || (leb 9 c && leb c 13)

unfoldable pub skip_spaces : Text → Text
skip_spaces [] = []
skip_spaces (c ∷ s) = let rest = skip_spaces s in if is_space c then rest else c ∷ s

-- The value of a digit, whatever the base.
unfoldable pub digit_value : ℕ → Option ℕ
digit_value c =
    if leb b'0' c && leb c b'9'
    then some (c - b'0')
    else if leb b'a' c && leb c b'z'
    then some (c - b'a' + 10)
    else if leb b'A' c && leb c b'Z'
    then some (c - b'A' + 10)
    else none

unfoldable pub is_digit : ℕ → ℕ → Bool
unfolding digit_value
is_digit base c = elim (digit_value c) [ none ↦ false | some d ↦ ltb d base ]

-- The digits from the front, with no bound.
unfoldable pub digits_value : ℕ → ℕ → Text → ℕ
unfolding digit_value
digits_value base acc [] = acc
digits_value base acc (c ∷ s) = elim (digit_value c) [
  | none ↦ acc
  | some d ↦ let rest = digits_value base (acc * base + d) s in if ltb d base then rest else acc
]

-- After the sign: 0x, 0 and other digits.
unfoldable pub magnitude : Text → ℕ
unfolding digits_value is_digit
magnitude [] = 0
magnitude (a ∷ []) = digits_value 10 0 (a ∷ [])
magnitude (a ∷ b ∷ []) = digits_value (if a == b'0' then 8 else 10) 0 (a ∷ b ∷ [])
magnitude (a ∷ b ∷ c ∷ s) =
    if a == b'0' && (b == b'x' || b == b'X') && is_digit 16 c
    then digits_value 16 0 (c ∷ s)
    else digits_value (if a == b'0' then 8 else 10) 0 (a ∷ b ∷ c ∷ s)

-- The sign and the magnitude.
unfoldable pub signed : Text → Bool × ℕ
unfolding magnitude
signed [] = (false, 0)
signed (c ∷ s) =
    if c == b'-' then (true, magnitude s) else (false, magnitude (if c == b'+' then s else c ∷ s))

-- Out of range: ULLONG_MAX. A minus sign negates in the unsigned type.
unfoldable pub unsigned_result : Bool → ℕ → ℕ
unsigned_result minus n =
    if leb (2 ^ 64) n then 2 ^ 64 - 1 else if minus then (2 ^ 64 - n) % 2 ^ 64 else n

unfoldable pub strtoull : Text → ℕ
unfolding unsigned_result signed skip_spaces
strtoull s = let (minus, n) = signed (skip_spaces s) in unsigned_result minus n

-- Out of range: LONG_MAX or LONG_MIN.
unfoldable pub signed_result : Bool → ℕ → ℕ
signed_result minus n = if minus then (2 ^ 64 - min n (2 ^ 63)) % 2 ^ 64 else min n (2 ^ 63 - 1)

unfoldable pub strtol : Text → ℕ
unfolding signed_result signed skip_spaces
strtol s = let (minus, n) = signed (skip_spaces s) in signed_result minus n

pub unsigned_result-lt : (minus : Bool) (n : ℕ) → unsigned_result minus n < 2 ^ 64
unfolding unsigned_result
unsigned_result-lt minus n = ground arith

pub signed_result-lt : (minus : Bool) (n : ℕ) → signed_result minus n < 2 ^ 64
unfolding signed_result
signed_result-lt minus n = ground arith
