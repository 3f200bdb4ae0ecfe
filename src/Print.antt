-- ===== src/Print.antt =====
-- scsi_print.c: the routines that change a text or compute what is printed.
pub mod Correct
pub mod Label
pub mod Tables
pub mod Details
pub mod Statistics
pub mod Fibre
pub mod Iscsi
pub mod Help
pub mod Render
pub mod Fits
pub mod Unshown
use mathlib.Core.Option
use scsi_cli.Prelude.{
  Option, Text, [], get_or, if◌then◌else◌, increment, ltb, map, negate, suc, text, to_size, zero, ℕ,
  ◌++◌, ◌+◌, ◌/◌, ◌==◌, ◌∷◌,
}
use scsi_cli.Clib.Format.{repeat}
use scsi_cli.Clib.Memory.{c_string, memmove}
use scsi_cli.Clib.Number.{is_space}
use scsi_cli.Clib.Printf.{decimal, truncated}

-- remove_newline: the text up to the first newline. The routine also returns its length. Its memcpy
-- copies this text onto itself, which the C standard leaves undefined; it is taken to leave the text.
unfoldable pub remove_newline : Text → Text
remove_newline [] = []
remove_newline (c ∷ s) = if c == b'\n' then [] else c ∷ remove_newline s

-- The while loop of remove_space: how many characters are skipped, and what `p` points to.
unfoldable pub skip_leading : Text → ℕ × Text
skip_leading [] = (0, [])
skip_leading (c ∷ s) = let (n, p) = skip_leading s in if is_space c then (n + 1, p) else (0, c ∷ s)

-- remove_space: what the text is afterwards; `none` is undefined. The loop leaves in `n` minus the
-- number of skipped spaces, and memmove(s, p, n + 1) converts n + 1 to size_t.
unfoldable pub remove_space : Text → Option Text
unfolding skip_leading memmove c_string
remove_space s =
    let skipped = (skip_leading s).0 in
    let n = negate skipped in
    Option.map c_string (memmove 0 skipped (to_size (increment n)) (s ++ (0 ∷ [])))

-- The loop of calculate_size: dbl_size, size and i, with `rounds` = length - 1 - i rounds left.
unfoldable pub size_loop : ℕ → ℕ → ℕ → ℕ → ℕ × ℕ
size_loop zero dbl size i = (dbl, i)
size_loop (suc rounds) dbl size i =
    let rest = size_loop rounds (size / 1024) (size / 1024) (i + 1) in
    if ltb 0 (size / 1024) then rest else (dbl, i)

-- calculate_size: the number that is printed and the index of its unit in B, KiB, MiB, GiB, TiB. The
-- loop leaves in dbl_size a quotient below 2^53, which a double holds exactly.
unfoldable pub calculate_size : ℕ → ℕ × ℕ
unfolding size_loop
calculate_size size = if ltb 1024 size then size_loop 4 size size 0 else (size, 0)

-- bytes_size
abbrev pub unit_name : ℕ → Text
unit_name i = get_or (text "B" ∷ text "KiB" ∷ text "MiB" ∷ text "GiB" ∷ text "TiB" ∷ []) i []

-- what calculate_size returns: the quotient is below 2^31 for every 64-bit number
unfoldable pub size_text : ℕ → Text
unfolding calculate_size decimal
size_text size =
    truncated 64
      (decimal (calculate_size size).0 ++ (text " " ++ unit_name (calculate_size size).1))

-- dash
abbrev pub dash : Text
dash = repeat b'-' 224

-- space
abbrev pub space : Text
space = repeat b' ' 32
