-- ===== src/Clib/Stdio.antt =====
-- stdio.h: fgets on the contents of a file that has just been opened.
use scsi_cli.Prelude.{
  All, Option, Text, [], ap, arith, false, if◌then◌else◌, length, none, refl, some, suc, zero, ℕ,
  ◌++◌, ◌-◌, ◌<◌, ◌==◌, ◌∷◌, ◌≡◌, ◌≤◌,
}

-- Up to `n` characters, no further than the first newline, which is kept.
unfoldable pub line : ℕ → Text → Text
line zero s = []
line (suc n) [] = []
line (suc n) (c ∷ s) = if c == b'\n' then c ∷ [] else c ∷ line n s

-- fgets(buf, n, f); `none` is NULL, at the end of the file.
unfoldable pub fgets : ℕ → Text → Option Text
unfolding line
fgets n [] = none
fgets n (c ∷ s) = some (line (n - 1) (c ∷ s))

pub line-length : (n : ℕ) (s : Text) → length (line n s) ≤ n
unfolding line
line-length zero s = omega arith
line-length (suc n) [] = omega arith
line-length (suc n) (c ∷ s) = ground (arith, line-length n s)

-- No newline.
abbrev pub IsLine : Text → Type 0
IsLine s = All (λ c. (c == b'\n') ≡ false) s

pub append-IsLine : (s t : Text) → IsLine s → IsLine t → IsLine (s ++ t)
append-IsLine [] t p q = q
append-IsLine (c ∷ s) t p q = (p.0, append-IsLine s t p.1 q)

pub line_whole :
    (n : ℕ) (s more : Text)
    → IsLine s
    → length s < n
    → line n (s ++ (b'\n' ∷ more)) ≡ s ++ (b'\n' ∷ [])
unfolding line
line_whole zero s more p h = absurd (omega (arith, h))
line_whole (suc n) [] more p h = refl
line_whole (suc n) (c ∷ s) more p h = rw (p.0, line_whole n s more p.1 (omega (arith, h))) refl

pub fgets_line :
    (n : ℕ) (s more : Text)
    → IsLine s
    → length s < n - 1
    → fgets n (s ++ (b'\n' ∷ more)) ≡ some (s ++ (b'\n' ∷ []))
unfolding fgets
fgets_line n [] more p h = ap some (line_whole (n - 1) [] more p h)
fgets_line n (c ∷ s) more p h = ap some (line_whole (n - 1) (c ∷ s) more p h)
