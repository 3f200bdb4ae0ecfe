-- ===== src/Clib/Scan.antt =====
-- stdio.h: the two formats that the program hands to sscanf. The result is the list of the values
-- that were assigned, so its length is what sscanf returns.
pub mod RoundTrip
use scsi_cli.Prelude.{
  Bool, List, Option, Text, [], false, if◌then◌else◌, leb, none, pos, refl, some, suc, text, to_int,
  true, zero, ℕ, ℤ, ◌%◌, ◌&&◌, ◌*◌, ◌+◌, ◌-◌, ◌==◌, ◌^◌, ◌∷◌, ◌≡◌,
}
use scsi_cli.Clib.Number.{skip_spaces}

abbrev pub is_decimal : ℕ → Bool
is_decimal c = leb b'0' c && leb c b'9'

-- The digits from the front, with what follows them.
unfoldable pub read_digits : ℕ → Text → ℕ × Text
read_digits acc [] = (acc, [])
read_digits acc (c ∷ s) =
    let rest = read_digits (acc * 10 + (c - b'0')) s in if is_decimal c then rest else (acc, c ∷ s)

-- At least one digit.
pub read_number : Text → Option (ℕ × Text)
unfolding read_digits
read_number [] = none
read_number (c ∷ s) = if is_decimal c then some (read_digits 0 (c ∷ s)) else none

-- The sign, the magnitude and the rest of the text.
pub read_signed : Text → Option (Bool × (ℕ × Text))
unfolding read_number
read_signed [] = none
read_signed (c ∷ s) =
    if c == b'-'
    then elim (read_number s) [ none ↦ none | some p ↦ some (true, p) ]
    else elim (read_number (if c == b'+' then s else c ∷ s)) [
      | none ↦ none
      | some p ↦ some (false, p)
    ]

-- %d
pub scan_int : Text → Option (ℤ × Text)
unfolding read_signed skip_spaces to_int
scan_int s = elim (read_signed (skip_spaces s)) [
  | none ↦ none
  | some (minus, (n, rest)) ↦ some (if minus then to_int (2 ^ 64 - n % 2 ^ 64) else to_int n, rest)
]

-- %lu
pub scan_u64 : Text → Option (ℕ × Text)
unfolding read_signed skip_spaces
scan_u64 s = elim (read_signed (skip_spaces s)) [
  | none ↦ none
  | some (minus, (n, rest)) ↦ some (
      if leb (2 ^ 64) n
      then (2 ^ 64 - 1, rest)
      else (if minus then (2 ^ 64 - n) % 2 ^ 64 else n, rest))
]

-- The character that a format names.
pub literal : ℕ → Text → Option Text
literal c [] = none
literal c (d ∷ s) = if c == d then some s else none

-- `n` times "%d", with a colon between them.
pub scan_colons : ℕ → Text → List ℤ
unfolding scan_int literal
scan_colons zero s = []
scan_colons (suc n) s = elim (scan_int s) [
  | none ↦ []
  | some (v, rest) ↦ v ∷ elim (literal b':' rest) [ none ↦ [] | some t ↦ scan_colons n t ]
]

-- sscanf(s, "%d:%d:%d:%d", ...)
unfoldable pub scan_hctl : Text → List ℤ
unfolding scan_colons
scan_hctl s = scan_colons 4 s

-- sscanf(s, "%lu %lu ... ", ...) with `n` conversions
unfoldable pub scan_u64s : ℕ → Text → List ℕ
unfolding scan_u64
scan_u64s zero s = []
scan_u64s (suc n) s = elim (scan_u64 s) [ none ↦ [] | some (v, rest) ↦ v ∷ scan_u64s n rest ]

scan_hctl_full : scan_hctl (text "2:0:10:1") ≡ pos 2 ∷ pos 0 ∷ pos 10 ∷ pos 1 ∷ []
unfolding scan_hctl
scan_hctl_full = refl
