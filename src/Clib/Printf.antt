-- ===== src/Clib/Printf.antt =====
-- stdio.h: snprintf and sprintf with a text for the format or under "%s". `none` is behaviour that
-- the C standard leaves undefined.
pub mod Digits
use mathlib.Core.Option
use scsi_cli.Prelude.{
  Bool, Option, Text, [], arith, false, if◌then◌else◌, leb, length, length-take, ltb, map, negsuc,
  none, pos, refl, some, suc, take, take_all, true, zero, ℕ, ℤ, ◌%◌, ◌+◌, ◌-◌, ◌/◌, ◌==◌, ◌∷◌, ◌≡◌,
  ◌≤◌,
}

-- A format with no argument: `%%` stands for `%`, any other conversion takes an argument that is not
-- there. The flag says that the character before was an unpaired `%`.
expand_from : Bool → Text → Option Text
expand_from false [] = some []
expand_from true [] = none
expand_from false (c ∷ s) =
    let rest = expand_from (c == b'%') s in if c == b'%' then rest else Option.map (λ t. c ∷ t) rest
expand_from true (c ∷ s) =
    let rest = expand_from false s in if c == b'%' then Option.map (λ t. c ∷ t) rest else none

unfoldable pub expand : Text → Option Text
unfolding expand_from
expand s = expand_from false s

-- snprintf(buf, n, "%s", s) for 0 < n: what `buf` holds.
abbrev pub truncated : ℕ → Text → Text
truncated n s = take (n - 1) s

-- snprintf(buf, n, s) with `s` for the format, for 0 < n. NULL is no format.
unfoldable pub snprintf_format : ℕ → Option Text → Option Text
unfolding expand
snprintf_format n none = none
snprintf_format n (some s) = Option.map (truncated n) (expand s)

-- sprintf(buf, s) into a buffer of `cap` bytes.
unfoldable pub sprintf_format : ℕ → Option Text → Option Text
unfolding expand
sprintf_format cap none = none
sprintf_format cap (some s) = elim (expand s) [
  | none ↦ none
  | some t ↦ if ltb (length t) cap then some t else none
]

-- snprintf(buf, n, "%s", s) into a zeroed buffer of `cap` bytes, where `n` need not be `cap`: the text
-- that is left. With n = 0 nothing is written.
unfoldable pub snprintf_into : ℕ → ℕ → Text → Option Text
snprintf_into cap n s =
    if n == 0
    then some []
    else if leb (length (truncated n s) + 1) cap
    then some (truncated n s)
    else none

-- No unpaired conversion: the text is its own expansion.
abbrev pub IsPlain : Text → Type 0
IsPlain [] = Unit
IsPlain (c ∷ s) = ((c == b'%') ≡ false) × IsPlain s

expand_from_plain : (s : Text) → IsPlain s → expand_from false s ≡ some s
unfolding expand_from
expand_from_plain [] h = refl
expand_from_plain (c ∷ s) h = rw (h.0, expand_from_plain s h.1)

pub expand_plain : (s : Text) → IsPlain s → expand s ≡ some s
unfolding expand
expand_plain s h = expand_from_plain s h

pub truncated-length : (n : ℕ) (s : Text) → length (truncated n s) ≤ n - 1
truncated-length n s = omega (arith, length-take (n - 1) s)

-- A plain text that fits is printed whole.
pub snprintf_format_plain :
    (n : ℕ) (s : Text) → IsPlain s → length s ≤ n - 1 → snprintf_format n (some s) ≡ some s
unfolding snprintf_format
snprintf_format_plain n s h fits = rw (expand_plain s h, take_all (n - 1) s fits)

-- sprintf(buf, ...) into a buffer of `cap` bytes, `s` being the whole text.
unfoldable pub sprintf_into : ℕ → Text → Option Text
sprintf_into cap s = if ltb (length s) cap then some s else none

pub decimal_from : ℕ → ℕ → Text → Text
decimal_from zero n acc = acc
decimal_from (suc fuel) n acc =
    let more = (n % 10 + b'0') ∷ acc in
    let rest = decimal_from fuel (n / 10) more in if ltb n 10 then more else rest

-- %lu: twenty digits hold every 64-bit number.
unfoldable pub decimal : ℕ → Text
unfolding decimal_from
decimal n = decimal_from 20 n []

-- %d
unfoldable pub decimal_int : ℤ → Text
unfolding decimal
decimal_int (pos n) = decimal n
decimal_int (negsuc n) = b'-' ∷ decimal (n + 1)
