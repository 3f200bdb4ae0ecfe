-- ===== src/Clib/Scan/RoundTrip.antt =====
-- stdio.h: what sscanf reads of numbers that were printed in decimal.
use scsi_cli.Prelude.{
  Text, [], ap, arith, false, if◌then◌else◌, leb, lt→ltb, none, pos, refl, some, suc, to_int, true,
  ℕ, ◌%◌, ◌++◌, ◌-◌, ◌<◌, ◌==◌, ◌^◌, ◌∙◌, ◌∷◌, ◌≡◌,
}
use scsi_cli.Clib.Number.{is_space, skip_spaces}
use scsi_cli.Clib.Printf.{decimal, decimal_from}
use scsi_cli.Clib.Printf.Digits.{
  BeginsWithDigit, EndsNumber, decimal-BeginsWithDigit, decimal-append, read_digits-decimal_from,
}
use scsi_cli.Clib.Scan.{
  is_decimal, literal, read_digits, read_number, read_signed, scan_colons, scan_hctl, scan_int,
  scan_u64, scan_u64s,
}

-- A text that begins with a digit has neither space nor sign in front of the number.
read_signed-digit :
    (s : Text) → BeginsWithDigit s → read_signed (skip_spaces s) ≡ some (false, read_digits 0 s)
unfolding read_signed skip_spaces read_number
read_signed-digit [] h = absurd h
read_signed-digit (c ∷ s) h =
    let first : is_space c ≡ false = not_space c h in
    let minus : (c == b'-') ≡ false = ground arith in
    let plus : (c == b'+') ≡ false = ground arith in rw (first, minus, plus, h) refl
  where
    not_space : (c : ℕ) → is_decimal c ≡ true → is_space c ≡ false
    not_space c h = ground arith

read_digits-end : (n : ℕ) (rest : Text) → EndsNumber rest → read_digits n rest ≡ (n, rest)
unfolding read_digits
read_digits-end n [] h = refl
read_digits-end n (c ∷ s) h = rw h refl

read_signed-decimal :
    (n : ℕ) (rest : Text)
    → n < 2 ^ 64
    → EndsNumber rest
    → read_signed (skip_spaces (decimal n ++ rest)) ≡ some (false, (n, rest))
read_signed-decimal n rest h ends = rw (decimal-append n rest) (
    read_signed-digit (decimal_from 20 n rest) (decimal-BeginsWithDigit n rest)
    ∙ ap (λ p. some (false, p))
        (read_digits-decimal_from 20 n rest (omega (arith, h)) ∙ read_digits-end n rest ends))

scan_int-signed :
    (s rest : Text) (n : ℕ)
    → read_signed (skip_spaces s) ≡ some (false, (n, rest))
    → scan_int s ≡ some (to_int n, rest)
unfolding scan_int
scan_int-signed s rest n h =
    ap
      (λ o. elim o [
        | none ↦ none
        | some (minus, (n, rest)) ↦
            some (if minus then to_int (2 ^ 64 - n % 2 ^ 64) else to_int n, rest)
      ])
      h

scan_u64-signed :
    (s rest : Text) (n : ℕ)
    → read_signed (skip_spaces s) ≡ some (false, (n, rest))
    → scan_u64 s ≡ some (if leb (2 ^ 64) n then (2 ^ 64 - 1, rest) else (n, rest))
unfolding scan_u64
scan_u64-signed s rest n h =
    ap
      (λ o. elim o [
        | none ↦ none
        | some (minus, (n, rest)) ↦ some (
            if leb (2 ^ 64) n
            then (2 ^ 64 - 1, rest)
            else (if minus then (2 ^ 64 - n) % 2 ^ 64 else n, rest))
      ])
      h

-- %d
pub scan_int-decimal :
    (n : ℕ) (rest : Text)
    → n < 2 ^ 31
    → EndsNumber rest
    → scan_int (decimal n ++ rest) ≡ some (pos n, rest)
unfolding to_int
scan_int-decimal n rest h ends =
    let low : n % 2 ^ 32 ≡ n = omega (arith, h) in
    let small : to_int n ≡ pos n = rw (low, lt→ltb n (2 ^ 31) h) refl in
    scan_int-signed (decimal n ++ rest) rest n (read_signed-decimal n rest (omega (arith, h)) ends)
    ∙ ap (λ k. some (k, rest)) small

-- %lu
pub scan_u64-decimal :
    (n : ℕ) (rest : Text)
    → n < 2 ^ 64
    → EndsNumber rest
    → scan_u64 (decimal n ++ rest) ≡ some (n, rest)
scan_u64-decimal n rest h ends =
    let fits : leb (2 ^ 64) n ≡ false = ground (arith, h) in
    scan_u64-signed (decimal n ++ rest) rest n (read_signed-decimal n rest h ends) ∙ rw fits refl

-- Spaces in front of the number are skipped.
pub scan_u64-skip_spaces : (s t : Text) → skip_spaces s ≡ skip_spaces t → scan_u64 s ≡ scan_u64 t
unfolding scan_u64
scan_u64-skip_spaces s t h =
    ap
      (λ u. elim (read_signed u) [
        | none ↦ none
        | some (minus, (n, rest)) ↦ some (
            if leb (2 ^ 64) n
            then (2 ^ 64 - 1, rest)
            else (if minus then (2 ^ 64 - n) % 2 ^ 64 else n, rest))
      ])
      h

pub scan_u64s-more :
    (n k : ℕ) (s rest : Text)
    → scan_u64 s ≡ some (k, rest)
    → scan_u64s (suc n) s ≡ k ∷ scan_u64s n rest
unfolding scan_u64s
scan_u64s-more n k s rest h =
    ap (λ o. elim o [ none ↦ [] | some (v, rest) ↦ v ∷ scan_u64s n rest ]) h

scan_colons-more :
    (n k : ℕ) (rest : Text)
    → k < 2 ^ 31
    → scan_colons (suc n) (decimal k ++ (b':' ∷ rest)) ≡ pos k ∷ scan_colons n rest
unfolding scan_colons literal
scan_colons-more n k rest h =
    ap
      (λ o. elim o [
        | none ↦ []
        | some (v, rest) ↦ v ∷ elim (literal b':' rest) [ none ↦ [] | some t ↦ scan_colons n t ]
      ])
      (scan_int-decimal k (b':' ∷ rest) h refl)

scan_colons-last : (k : ℕ) → k < 2 ^ 31 → scan_colons 1 (decimal k ++ []) ≡ pos k ∷ []
unfolding scan_colons literal
scan_colons-last k h =
    ap
      (λ o. elim o [
        | none ↦ []
        | some (v, rest) ↦ v ∷ elim (literal b':' rest) [ none ↦ [] | some t ↦ scan_colons 0 t ]
      ])
      (scan_int-decimal k [] h tt)

-- The name of a SCSI device: host, channel, target and LUN.
abbrev pub hctl_name : ℕ → ℕ → ℕ → ℕ → Text
hctl_name h c t l =
    decimal h ++ (b':' ∷ (decimal c ++ (b':' ∷ (decimal t ++ (b':' ∷ (decimal l ++ []))))))

pub scan_hctl-hctl_name :
    (h c t l : ℕ)
    → h < 2 ^ 31
    → c < 2 ^ 31
    → t < 2 ^ 31
    → l < 2 ^ 31
    → scan_hctl (hctl_name h c t l) ≡ pos h ∷ pos c ∷ pos t ∷ pos l ∷ []
unfolding scan_hctl
scan_hctl-hctl_name h c t l p q r s =
    scan_colons-more 3 h (decimal c ++ (b':' ∷ (decimal t ++ (b':' ∷ (decimal l ++ []))))) p
    ∙ ap (λ v. pos h ∷ v)
        (scan_colons-more 2 c (decimal t ++ (b':' ∷ (decimal l ++ []))) q
          ∙ ap (λ v. pos c ∷ v)
              (scan_colons-more 1 t (decimal l ++ []) r
                ∙ ap (λ v. pos t ∷ v) (scan_colons-last l s)))
