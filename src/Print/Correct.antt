-- ===== src/Print/Correct.antt =====
-- scsi_print.c: what the routines on texts and sizes compute.
use mathlib.Core.Option
use scsi_cli.Prelude.{
  ==_iff, All, Bool, Bool-cases, Text, [], ap, arith, false, if◌then◌else◌, increment, inl, inr,
  leb, length, length-append, negate, none, refl, some, suc, to_size, true, zero, ℕ, ◌%◌, ◌&&◌,
  ◌++◌, ◌-◌, ◌/◌, ◌<◌, ◌==◌, ◌^◌, ◌∙◌, ◌∷◌, ◌≡◌, ◌≤◌, ◌⊎◌,
}
use scsi_cli.Clib.Memory.{
  c_string, c_string_lem, memmove, memmove_nothing, memmove_outside, memmove_same,
}
use scsi_cli.Clib.Number.{is_space}
use scsi_cli.Print.{calculate_size, remove_newline, remove_space, skip_leading}

-- calculate_size gives bytes up to 1024, then KiB, MiB and GiB below 2^20, 2^30 and 2^40 bytes,
-- and TiB from there on, with the quotient rounded down.
pub calculate_size_lem :
    (size : ℕ)
    → ((size ≤ 1024) × (calculate_size size ≡ (size, 0)))
      ⊎ (((1024 < size) × ((size < 2 ^ 20) × (calculate_size size ≡ (size / 2 ^ 10, 1))))
          ⊎ (((2 ^ 20 ≤ size) × ((size < 2 ^ 30) × (calculate_size size ≡ (size / 2 ^ 20, 2))))
              ⊎ (((2 ^ 30 ≤ size) × ((size < 2 ^ 40) × (calculate_size size ≡ (size / 2 ^ 30, 3))))
                  ⊎ ((2 ^ 40 ≤ size) × (calculate_size size ≡ (size / 2 ^ 40, 4))))))
unfolding calculate_size
calculate_size_lem size = ground arith

-- remove_newline keeps exactly what stands before the first newline, or the whole text where there
-- is none.
pub remove_newline_lem :
    (s : Text)
    → All (λ c. (c == b'\n') ≡ false) (remove_newline s)
      × ((s ≡ remove_newline s) ⊎ ((t : Text) × (s ≡ remove_newline s ++ (b'\n' ∷ t))))
unfolding remove_newline
remove_newline_lem [] = (tt, inl refl)
remove_newline_lem (c ∷ s) = elim (Bool-cases (c == b'\n')) [
  | inl same ↦ rw same (tt, inr (s, rw ((==_iff c b'\n').0 same) refl))
  | inr other ↦ rw other (extend other (remove_newline_lem s))
]
  where
    extend :
        (c == b'\n') ≡ false
        → All (λ d. (d == b'\n') ≡ false) (remove_newline s)
          × ((s ≡ remove_newline s) ⊎ ((t : Text) × (s ≡ remove_newline s ++ (b'\n' ∷ t))))
        → (((c == b'\n') ≡ false) × All (λ d. (d == b'\n') ≡ false) (remove_newline s))
          × ((c ∷ s ≡ c ∷ remove_newline s)
              ⊎ ((t : Text) × (c ∷ s ≡ (c ∷ remove_newline s) ++ (b'\n' ∷ t))))
    extend other (h, inl e) = ((other, h), inl (ap (λ r. c ∷ r) e))
    extend other (h, inr (t, e)) = ((other, h), inr (t, ap (λ r. c ∷ r) e))

skip_leading_bound : (s : Text) → (skip_leading s).0 ≤ length s
unfolding skip_leading
skip_leading_bound [] = omega arith
skip_leading_bound (c ∷ s) = ground (arith, skip_leading_bound s)

-- Two white-space characters stand in front.
abbrev pub begins_with_two_spaces : Text → Bool
begins_with_two_spaces [] = false
begins_with_two_spaces (a ∷ []) = false
begins_with_two_spaces (a ∷ b ∷ s) = is_space a && is_space b

begins_with_two_spaces_lem : (s : Text) → begins_with_two_spaces s ≡ leb 2 (skip_leading s).0
unfolding skip_leading
begins_with_two_spaces_lem [] = refl
begins_with_two_spaces_lem (a ∷ []) = elim (Bool-cases (is_space a)) [
  | inl h ↦ rw h refl
  | inr h ↦ rw h refl
]
begins_with_two_spaces_lem (a ∷ b ∷ s) = elim (Bool-cases (is_space a)) [
  | inl h ↦ elim (Bool-cases (is_space b)) [
    | inl k ↦ rw (h, k) (ground arith)
    | inr k ↦ rw (h, k) refl
  ]
  | inr h ↦ rw h refl
]

-- What the memmove of remove_space does to a text and its final 0.
moved_lem :
    (s : Text) (skipped : ℕ)
    → skipped ≤ length s
    → length s < 2 ^ 64
    → memmove 0 skipped (to_size (increment (negate skipped))) (s ++ (0 ∷ []))
      ≡ (if leb 2 skipped then none else some (s ++ (0 ∷ [])))
moved_lem s zero h small = memmove_same (s ++ (0 ∷ [])) (omega (arith, length-append s (0 ∷ [])))
moved_lem s (suc zero) h small =
    memmove_nothing 1 (s ++ (0 ∷ [])) (omega (arith, length-append s (0 ∷ [])))
moved_lem s (suc (suc k)) h small =
    memmove_outside 0 (suc (suc k)) (2 ^ 64 - 1 - k % 2 ^ 64) (s ++ (0 ∷ []))
      (omega (arith, length-append s (0 ∷ [])))
    ∙ ground arith

-- On a text without a byte 0 and of fewer than 2^64 bytes, remove_space is undefined where two
-- white-space characters stand in front, and leaves the text as it was otherwise.
pub remove_space_lem :
    (s : Text)
    → All (λ c. (c == 0) ≡ false) s
    → length s < 2 ^ 64
    → remove_space s ≡ (if begins_with_two_spaces s then none else some s)
unfolding remove_space
remove_space_lem s no_zero small =
    rw (moved_lem s (skip_leading s).0 (skip_leading_bound s) small, begins_with_two_spaces_lem s)
      (read_back (leb 2 (skip_leading s).0))
  where
    read_back :
        (b : Bool)
        → Option.map c_string (if b then none else some (s ++ (0 ∷ [])))
          ≡ (if b then none else some s)
    read_back true = refl
    read_back false = ap some (c_string_lem s no_zero)
