-- ===== src/Clib/Format.antt =====
-- stdio.h: printf, for the flags `-`, `#` and `0`, a width, a precision and the conversions d, u, x
-- and s. The result is the text that is printed; `none` is a format that does not fit its arguments.
use mathlib.Core.Option
use scsi_cli.Prelude.{
  Bool, List, Option, String, Text, [], false, if_null, if◌then◌else◌, leb, length, ltb, negsuc,
  none, not, pos, refl, some, suc, take, text, to_int, true, zero, ℕ, ℤ, ◌%◌, ◌&&◌, ◌*◌, ◌++◌, ◌+◌,
  ◌-◌, ◌/◌, ◌==◌, ◌^◌, ◌∷◌, ◌≡◌,
}
use scsi_cli.Clib.Printf.{decimal, decimal_int}

-- An argument, by its type in C: a pointer to a text, an int, an unsigned int (uint32_t), an unsigned
-- 64-bit number.
pub data Arg : Type 0 where
  arg_s : Option Text → Arg
  arg_d : ℤ → Arg
  arg_u32 : ℕ → Arg
  arg_u : ℕ → Arg

-- What stands between `%` and the letter of the conversion.
pub record Spec : Type 0 where
  pub left : Bool
  pub alternate : Bool
  pub zeros : Bool
  pub long : Bool
  pub width : ℕ
  pub precision : Option ℕ

abbrev plain_spec : Spec
plain_spec = record {
  left = false;
  alternate = false;
  zeros = false;
  long = false;
  width = 0;
  precision = none;
}

pub data Letter : Type 0 where
  is_d is_u is_x is_s : Letter

-- What a character after `%` means.
pub data Directive : Type 0 where
  percent_sign minus_flag hash_flag dot_sign star_sign long_modifier : Directive
  digit_of : ℕ → Directive
  conversion_of : Letter → Directive
  unknown_directive : Directive

directive : ℕ → Directive
directive c =
    if c == b'%'
    then percent_sign
    else if c == b'-'
    then minus_flag
    else if c == b'#'
    then hash_flag
    else if c == b'.'
    then dot_sign
    else if c == b'*'
    then star_sign
    else if c == b'l'
    then long_modifier
    else if c == b'd'
    then conversion_of is_d
    else if c == b'u'
    then conversion_of is_u
    else if c == b'x'
    then conversion_of is_x
    else if c == b's'
    then conversion_of is_s
    else if leb b'0' c && leb c b'9'
    then digit_of (c - b'0')
    else unknown_directive

-- A digit belongs to the precision after a dot, is the flag `0` in front, and belongs to the width
-- otherwise.
with_digit : ℕ → Spec → Spec
with_digit n s =
    if_null s.precision
      (if n == 0 && s.width == 0
        then record s { zeros = true }
        else record s { width = s.width * 10 + n })
      (λ p. record s { precision = some (p * 10 + n) })

unfoldable pub repeat : ℕ → ℕ → Text
repeat c zero = []
repeat c (suc n) = c ∷ repeat c n

-- A text in a field of at least `width` characters.
unfoldable pub padded : Bool → ℕ → Text → Text
unfolding repeat
padded left width s =
    if left then s ++ repeat b' ' (width - length s) else repeat b' ' (width - length s) ++ s

hexadecimal_from : ℕ → ℕ → Text → Text
hexadecimal_from zero n acc = acc
hexadecimal_from (suc fuel) n acc =
    let digit = n % 16 in
    let more = (if ltb digit 10 then digit + b'0' else digit - 10 + b'a') ∷ acc in
    let rest = hexadecimal_from fuel (n / 16) more in if ltb n 16 then more else rest

-- %x: sixteen digits hold every 64-bit number.
unfoldable pub hexadecimal : ℕ → Text
unfolding hexadecimal_from
hexadecimal n = hexadecimal_from 16 n []

-- %#x
unfoldable pub prefixed_hexadecimal : ℕ → Text
unfolding hexadecimal
prefixed_hexadecimal n = if n == 0 then hexadecimal n else text "0x" ++ hexadecimal n

-- %lld of an unsigned 64-bit number
unfoldable pub to_long : ℕ → ℤ
to_long n = if ltb n (2 ^ 63) then pos n else negsuc (2 ^ 64 - n - 1)

-- the bits of an int as an unsigned number
unfoldable pub of_int : ℤ → ℕ
of_int (pos n) = n % 2 ^ 32
of_int (negsuc n) = 2 ^ 32 - 1 - n % 2 ^ 32

-- %d, with zeros between the sign and the digits up to the width where the flag is given
decimal_field : Spec → ℤ → Text
unfolding decimal decimal_int padded
decimal_field spec (pos n) =
    if spec.zeros && not spec.left
    then repeat b'0' (spec.width - length (decimal n)) ++ decimal n
    else padded spec.left spec.width (decimal n)
decimal_field spec (negsuc n) =
    if spec.zeros && not spec.left
    then b'-' ∷ (repeat b'0' (spec.width - 1 - length (decimal (n + 1))) ++ decimal (n + 1))
    else padded spec.left spec.width (decimal_int (negsuc n))

-- %s. A null pointer is printed as "(null)", and as nothing where the precision is below six.
text_of : Option ℕ → Option Text → Text
text_of none none = text "(null)"
text_of (some p) none = if leb 6 p then text "(null)" else []
text_of none (some s) = s
text_of (some p) (some s) = take p s

-- %x, with 0x where the flag `#` is given
hexadecimal_field : Spec → ℕ → Text
unfolding padded hexadecimal prefixed_hexadecimal
hexadecimal_field spec n =
    padded spec.left spec.width (if spec.alternate then prefixed_hexadecimal n else hexadecimal n)

-- A conversion takes 32 bits, and 64 with the modifier `l`.
sized : Bool → Bool → Text → Option Text
sized long is_64 t =
    if long then (if is_64 then some t else none) else if is_64 then none else some t

-- One conversion; `none` is an argument of another kind or another size.
field : Spec → Letter → Arg → Option Text
unfolding decimal_field hexadecimal_field text_of padded decimal to_int to_long of_int sized
field spec is_s (arg_s s) = some (padded spec.left spec.width (text_of spec.precision s))
field spec is_s (arg_d v) = none
field spec is_s (arg_u32 n) = none
field spec is_s (arg_u n) = none
field spec is_d (arg_s s) = none
field spec is_d (arg_d v) = sized spec.long false (decimal_field spec v)
field spec is_d (arg_u32 n) = sized spec.long false (decimal_field spec (to_int n))
field spec is_d (arg_u n) = sized spec.long true (decimal_field spec (to_long n))
field spec is_u (arg_s s) = none
field spec is_u (arg_d v) = sized spec.long false (padded spec.left spec.width (decimal (of_int v)))
field spec is_u (arg_u32 n) = sized spec.long false (padded spec.left spec.width (decimal n))
field spec is_u (arg_u n) = sized spec.long true (padded spec.left spec.width (decimal n))
field spec is_x (arg_s s) = none
field spec is_x (arg_d v) = sized spec.long false (hexadecimal_field spec (of_int v))
field spec is_x (arg_u32 n) = sized spec.long false (hexadecimal_field spec n)
field spec is_x (arg_u n) = sized spec.long true (hexadecimal_field spec n)

-- The format from one character on, inside a conversion or outside. An argument for `*` is an int, or
-- an unsigned int that an int can hold; a negative one would mean `-`, and no call has one.
printf_from : Option Spec → Text → List Arg → Option Text
unfolding directive with_digit field
printf_from none [] args = some []
printf_from (some spec) [] args = none
printf_from none (c ∷ s) args = elim (c == b'%') [
  | true ↦ printf_from (some plain_spec) s args
  | false ↦ Option.map (λ t. c ∷ t) (printf_from none s args)
]
printf_from (some spec) (c ∷ s) args = elim (directive c) [
  | percent_sign ↦ Option.map (λ t. b'%' ∷ t) (printf_from none s args)
  | minus_flag ↦ printf_from (some (record spec { left = true })) s args
  | hash_flag ↦ printf_from (some (record spec { alternate = true })) s args
  | dot_sign ↦ printf_from (some (record spec { precision = some 0 })) s args
  | star_sign ↦ elim args [
    | [] ↦ none
    | arg_d (pos n) ∷ rest ↦ printf_from (some (record spec { width = n })) s rest
    | arg_u32 n ∷ rest ↦ printf_from (some (record spec { width = n })) s rest
    | _ ↦ none
  ]
  | long_modifier ↦ printf_from (some (record spec { long = true })) s args
  | digit_of n ↦ printf_from (some (with_digit n spec)) s args
  | conversion_of letter ↦ elim args [
    | [] ↦ none
    | a ∷ rest ↦ elim (field spec letter a) [
      | none ↦ none
      | some t ↦ Option.map (λ u. t ++ u) (printf_from none s rest)
    ]
  ]
  | unknown_directive ↦ none
]

-- printf(format, args)
unfoldable pub printf : String → List Arg → Option Text
unfolding printf_from
printf format args = printf_from none (text format) args

-- One call after the other.
abbrev pub both : Option Text → Option Text → Option Text
both none b = none
both (some s) none = none
both (some s) (some t) = some (s ++ t)

abbrev pub all_of : List (Option Text) → Option Text
all_of [] = some []
all_of (o ∷ os) = both o (all_of os)

printf_example :
    printf "[%d:%02d]\t%-4s|%.2s|%#x %lld%%" (
      arg_d (negsuc 0)
      ∷ arg_d (pos 7)
      ∷ arg_s (some (text "ab"))
      ∷ arg_s (some (text "xyz"))
      ∷ arg_u32 255
      ∷ arg_u (2 ^ 64 - 1)
      ∷ [])
    ≡ some (text "[-1:07]\tab  |xy|0xff -1%")
unfolding printf
printf_example = refl

wrong_size_example :
    (printf "%d" (arg_u 1 ∷ []) ≡ none)
    × ((printf "%#x" (arg_u 1 ∷ []) ≡ none) × (printf "%llu" (arg_d (pos 1) ∷ []) ≡ none))
unfolding printf
wrong_size_example = (refl, (refl, refl))
