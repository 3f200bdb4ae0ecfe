-- ===== src/Clib/Printf/Digits.antt =====
-- stdio.h: the digits that %lu prints, with a text after them.
use native.Mathlib.Nat.{pow-suc}
use scsi_cli.Prelude.{
  Bool-cases, Text, [], ap, arith, false, inl, inr, length, ltb, ltb→lt, refl, suc, sym, true, zero,
  ℕ, ◌%◌, ◌*◌, ◌++◌, ◌+◌, ◌-◌, ◌/◌, ◌<◌, ◌==◌, ◌^◌, ◌∙◌, ◌∷◌, ◌≡◌, ◌≤◌,
}
use scsi_cli.Clib.Printf.{IsPlain, decimal, decimal_from}
use scsi_cli.Clib.Scan.{is_decimal, read_digits}
use scsi_cli.Clib.Stdio.{IsLine}

-- The text begins with a digit.
abbrev pub BeginsWithDigit : Text → Type 0
BeginsWithDigit [] = ⊥
BeginsWithDigit (c ∷ s) = is_decimal c ≡ true

-- The text does not.
abbrev pub EndsNumber : Text → Type 0
EndsNumber [] = Unit
EndsNumber (c ∷ s) = is_decimal c ≡ false

decimal_from-append :
    (fuel n : ℕ) (acc rest : Text)
    → decimal_from fuel n acc ++ rest ≡ decimal_from fuel n (acc ++ rest)
unfolding decimal_from
decimal_from-append zero n acc rest = refl
decimal_from-append (suc fuel) n acc rest = elim (Bool-cases (ltb n 10)) [
  | inl small ↦ rw small refl
  | inr large ↦ rw large (decimal_from-append fuel (n / 10) ((n % 10 + b'0') ∷ acc) rest)
]

pub decimal-append : (n : ℕ) (rest : Text) → decimal n ++ rest ≡ decimal_from 20 n rest
unfolding decimal
decimal-append n rest = decimal_from-append 20 n [] rest

digit_lem : (n : ℕ) → is_decimal (n % 10 + b'0') ≡ true
digit_lem n = ground arith

decimal_from-BeginsWithDigit :
    (fuel n : ℕ) (acc : Text) → BeginsWithDigit acc → BeginsWithDigit (decimal_from fuel n acc)
unfolding decimal_from
decimal_from-BeginsWithDigit zero n acc h = h
decimal_from-BeginsWithDigit (suc fuel) n acc h = elim (Bool-cases (ltb n 10)) [
  | inl small ↦ rw small (digit_lem n)
  | inr large ↦
      rw large (decimal_from-BeginsWithDigit fuel (n / 10) ((n % 10 + b'0') ∷ acc) (digit_lem n))
]

pub decimal-BeginsWithDigit : (n : ℕ) (rest : Text) → BeginsWithDigit (decimal_from 20 n rest)
unfolding decimal_from
decimal-BeginsWithDigit n rest = elim (Bool-cases (ltb n 10)) [
  | inl small ↦ rw small (digit_lem n)
  | inr large ↦
      rw large (decimal_from-BeginsWithDigit 19 (n / 10) ((n % 10 + b'0') ∷ rest) (digit_lem n))
]

-- A reader that takes a digit into its result reads the whole number back.
pub reader-decimal_from :
    {X : Type 0} (read : ℕ → Text → X)
    → ((acc n : ℕ) (rest : Text)
        → read acc ((n % 10 + b'0') ∷ rest) ≡ read (acc * 10 + n % 10) rest)
    → (fuel n : ℕ) (rest : Text) → n < 10 ^ fuel
    → read 0 (decimal_from fuel n rest) ≡ read n rest
unfolding decimal_from
reader-decimal_from read digit zero n rest h = let z : n ≡ 0 = omega (arith, h) in rw z refl
reader-decimal_from read digit (suc fuel) n rest h = elim (Bool-cases (ltb n 10)) [
  | inl small ↦
      let low : n < 10 = ltb→lt n 10 small in
      let same : 0 * 10 + n % 10 ≡ n = omega (arith, low) in
      rw small (digit 0 n rest ∙ ap (λ k. read k rest) same)
  | inr large ↦
      let bound : n < 10 ^ fuel * 10 = rw (sym (pow-suc 10 fuel)) h in
      let less : n / 10 < 10 ^ fuel = omega (arith, bound) in
      let again : n / 10 * 10 + n % 10 ≡ n = omega arith in
      rw large (
        reader-decimal_from read digit fuel (n / 10) ((n % 10 + b'0') ∷ rest) less
        ∙ digit (n / 10) n rest
        ∙ ap (λ k. read k rest) again)
]

-- Reading one digit back.
read_digits-digit :
    (acc n : ℕ) (rest : Text)
    → read_digits acc ((n % 10 + b'0') ∷ rest) ≡ read_digits (acc * 10 + n % 10) rest
unfolding read_digits
read_digits-digit acc n rest =
    let digit : n % 10 + b'0' - b'0' ≡ n % 10 = omega arith in rw (digit_lem n, digit) refl

-- Reading the digits back.
pub read_digits-decimal_from :
    (fuel n : ℕ) (rest : Text)
    → n < 10 ^ fuel
    → read_digits 0 (decimal_from fuel n rest) ≡ read_digits n rest
read_digits-decimal_from = reader-decimal_from read_digits read_digits-digit

-- A number other than 0 does not begin with the digit 0.
abbrev pub BeginsAboveZero : Text → Type 0
BeginsAboveZero [] = ⊥
BeginsAboveZero (c ∷ s) = ((c == b'0') ≡ false) × (is_decimal c ≡ true)

decimal_from-BeginsAboveZero :
    (fuel n : ℕ) (acc : Text) → 0 < n → n < 10 ^ fuel → BeginsAboveZero (decimal_from fuel n acc)
unfolding decimal_from
decimal_from-BeginsAboveZero zero n acc p h = absurd (omega (arith, p, h))
decimal_from-BeginsAboveZero (suc fuel) n acc p h = elim (Bool-cases (ltb n 10)) [
  | inl small ↦
      let low : n < 10 = ltb→lt n 10 small in
      let nonzero : ((n % 10 + b'0') == b'0') ≡ false = ground (arith, p, low) in
      rw small (nonzero, digit_lem n)
  | inr large ↦
      let high : 10 ≤ n = ground (arith, large) in
      let bound : n < 10 ^ fuel * 10 = rw (sym (pow-suc 10 fuel)) h in
      let less : n / 10 < 10 ^ fuel = omega (arith, bound) in
      let some_left : 0 < n / 10 = omega (arith, high) in
      rw large (decimal_from-BeginsAboveZero fuel (n / 10) ((n % 10 + b'0') ∷ acc) some_left less)
]

pub decimal-BeginsAboveZero : (n : ℕ) → 0 < n → n < 2 ^ 64 → BeginsAboveZero (decimal n)
unfolding decimal
decimal-BeginsAboveZero n p h = decimal_from-BeginsAboveZero 20 n [] p (omega (arith, h))

decimal_from-length :
    (fuel n : ℕ) (acc : Text) → length (decimal_from fuel n acc) ≤ fuel + length acc
unfolding decimal_from
decimal_from-length zero n acc = omega arith
decimal_from-length (suc fuel) n acc = elim (Bool-cases (ltb n 10)) [
  | inl small ↦ rw small (omega arith)
  | inr large ↦
      let rest = decimal_from-length fuel (n / 10) ((n % 10 + b'0') ∷ acc) in
      rw large (omega (arith, rest))
]

pub decimal-length : (n : ℕ) → length (decimal n) ≤ 20
unfolding decimal
decimal-length n = let h = decimal_from-length 20 n [] in omega (arith, h)

decimal_from-IsPlain : (fuel n : ℕ) (acc : Text) → IsPlain acc → IsPlain (decimal_from fuel n acc)
unfolding decimal_from
decimal_from-IsPlain zero n acc h = h
decimal_from-IsPlain (suc fuel) n acc h =
    let digit : ((n % 10 + b'0') == b'%') ≡ false = ground arith in
    elim (Bool-cases (ltb n 10)) [
      | inl small ↦ rw small (digit, h)
      | inr large ↦ rw large (decimal_from-IsPlain fuel (n / 10) ((n % 10 + b'0') ∷ acc) (digit, h))
    ]

pub decimal-IsPlain : (n : ℕ) → IsPlain (decimal n)
unfolding decimal
decimal-IsPlain n = decimal_from-IsPlain 20 n [] tt

decimal_from-IsLine : (fuel n : ℕ) (acc : Text) → IsLine acc → IsLine (decimal_from fuel n acc)
unfolding decimal_from
decimal_from-IsLine zero n acc h = h
decimal_from-IsLine (suc fuel) n acc h =
    let digit : ((n % 10 + b'0') == b'\n') ≡ false = ground arith in
    elim (Bool-cases (ltb n 10)) [
      | inl small ↦ rw small (digit, h)
      | inr large ↦ rw large (decimal_from-IsLine fuel (n / 10) ((n % 10 + b'0') ∷ acc) (digit, h))
    ]

pub decimal-IsLine : (n : ℕ) → IsLine (decimal n)
unfolding decimal
decimal-IsLine n = decimal_from-IsLine 20 n [] tt
