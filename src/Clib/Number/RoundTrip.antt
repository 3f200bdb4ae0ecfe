-- ===== src/Clib/Number/RoundTrip.antt =====
-- stdlib.h: strtoull on a number that was printed in decimal.
use scsi_cli.Prelude.{
  Text, [], ap, arith, false, if◌then◌else◌, leb, ltb, none, refl, some, suc, true, zero, ℕ, ◌%◌,
  ◌*◌, ◌+◌, ◌<◌, ◌==◌, ◌^◌, ◌∙◌, ◌∷◌, ◌≡◌,
}
use scsi_cli.Clib.Number.{
  digit_value, digits_value, is_space, magnitude, signed, skip_spaces, strtoull, unsigned_result,
}
use scsi_cli.Clib.Printf.{decimal}
use scsi_cli.Clib.Printf.Digits.{BeginsAboveZero, decimal-BeginsAboveZero, reader-decimal_from}
use scsi_cli.Clib.Scan.{is_decimal}

digit_value-digit : (n : ℕ) → digit_value (n % 10 + b'0') ≡ some (n % 10)
unfolding digit_value
digit_value-digit n = ground arith

digits_value-digit :
    (acc n : ℕ) (rest : Text)
    → digits_value 10 acc ((n % 10 + b'0') ∷ rest) ≡ digits_value 10 (acc * 10 + n % 10) rest
unfolding digits_value
digits_value-digit acc n rest =
    let below : ltb (n % 10) 10 ≡ true = ground arith in
    ap
      (λ o. elim o [
        | none ↦ acc
        | some d ↦ if ltb d 10 then digits_value 10 (acc * 10 + d) rest else acc
      ])
      (digit_value-digit n)
    ∙ rw below refl

digits_value-decimal : (n : ℕ) → n < 2 ^ 64 → digits_value 10 0 (decimal n) ≡ n
unfolding decimal digits_value
digits_value-decimal n h =
    reader-decimal_from (digits_value 10) digits_value-digit 20 n [] (omega (arith, h))

skip_spaces-digits : (s : Text) → BeginsAboveZero s → skip_spaces s ≡ s
unfolding skip_spaces
skip_spaces-digits [] h = absurd h
skip_spaces-digits (c ∷ s) h = let first = not_space c h.1 in rw first refl
  where
    not_space : (c : ℕ) → is_decimal c ≡ true → is_space c ≡ false
    not_space c h = ground arith

magnitude-digits : (s : Text) → BeginsAboveZero s → magnitude s ≡ digits_value 10 0 s
unfolding magnitude
magnitude-digits [] h = absurd h
magnitude-digits (a ∷ []) h = refl
magnitude-digits (a ∷ b ∷ []) h = rw h.0 refl
magnitude-digits (a ∷ b ∷ c ∷ s) h = rw h.0 refl

signed-digits : (s : Text) → BeginsAboveZero s → signed s ≡ (false, magnitude s)
unfolding signed
signed-digits [] h = absurd h
signed-digits (c ∷ s) h =
    let digit = h.1 in
    let minus : (c == b'-') ≡ false = ground (arith, digit) in
    let plus : (c == b'+') ≡ false = ground (arith, digit) in rw (minus, plus) refl

strtoull-digits :
    (s : Text) → BeginsAboveZero s → strtoull s ≡ unsigned_result false (digits_value 10 0 s)
unfolding strtoull
strtoull-digits s h =
    ap (λ t. let (minus, n) = signed t in unsigned_result minus n) (skip_spaces-digits s h)
    ∙ ap (λ p. unsigned_result p.0 p.1) (signed-digits s h)
    ∙ ap (unsigned_result false) (magnitude-digits s h)

strtoull-zero : strtoull (decimal 0) ≡ 0
unfolding strtoull decimal
strtoull-zero = refl

unsigned_result-fits : (n : ℕ) → n < 2 ^ 64 → unsigned_result false n ≡ n
unfolding unsigned_result
unsigned_result-fits n h = let fits : leb (2 ^ 64) n ≡ false = ground (arith, h) in rw fits refl

pub strtoull-decimal : (n : ℕ) → n < 2 ^ 64 → strtoull (decimal n) ≡ n
strtoull-decimal zero h = strtoull-zero
strtoull-decimal (suc k) h =
    strtoull-digits (decimal (suc k)) (decimal-BeginsAboveZero (suc k) (omega arith) h)
    ∙ ap (unsigned_result false) (digits_value-decimal (suc k) h)
    ∙ unsigned_result-fits (suc k) h
