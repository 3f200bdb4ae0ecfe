-- ===== src/Clib/Memory.antt =====
-- string.h: memmove inside one buffer, and the text that a buffer holds.
use scsi_cli.Prelude.{
  All, List, Option, Text, [], arith, drop, false, if◌then◌else◌, length, ltb, none, refl, some,
  take, text, ℕ, ◌++◌, ◌+◌, ◌<◌, ◌==◌, ◌||◌, ◌∷◌, ◌≡◌, ◌≤◌,
}

-- memmove(to, from, count), with offsets into the buffer; `none` is a range that leaves it, which is
-- undefined.
unfoldable pub memmove : ℕ → ℕ → ℕ → List ℕ → Option (List ℕ)
memmove to from count buffer =
    if ltb (length buffer) (to + count) || ltb (length buffer) (from + count)
    then none
    else some (take to buffer ++ (take count (drop from buffer) ++ drop (to + count) buffer))

-- The characters before the first byte 0.
unfoldable pub c_string : List ℕ → Text
c_string [] = []
c_string (c ∷ s) = if c == 0 then [] else c ∷ c_string s

-- A text without a byte 0 is what its bytes and a final 0 hold.
pub c_string_lem : (s : Text) → All (λ c. (c == 0) ≡ false) s → c_string (s ++ (0 ∷ [])) ≡ s
unfolding c_string
c_string_lem [] h = refl
c_string_lem (c ∷ s) h = rw (h.0, c_string_lem s h.1) refl

-- A range behind the end of the buffer.
pub memmove_outside :
    (to from count : ℕ) (buffer : List ℕ)
    → length buffer < from + count
    → memmove to from count buffer ≡ none
unfolding memmove
memmove_outside to from count buffer h = ground arith

-- One byte onto itself.
pub memmove_same : (buffer : List ℕ) → 1 ≤ length buffer → memmove 0 0 1 buffer ≡ some buffer
unfolding memmove
memmove_same [] h = absurd (omega arith)
memmove_same (b ∷ bs) h = ground arith

-- No byte at all.
pub memmove_nothing :
    (from : ℕ) (buffer : List ℕ) → from ≤ length buffer → memmove 0 from 0 buffer ≡ some buffer
unfolding memmove
memmove_nothing from buffer h = ground arith

memmove_example :
    (memmove 0 2 3 (text "abcde") ≡ some (text "cdede")) × (memmove 0 3 3 (text "abcde") ≡ none)
unfolding memmove
memmove_example = (refl, refl)
