-- ===== src/Fibre/Correct.antt =====
-- scsi_fcp_utils.c: how many remote ports get_adapter_details finds.
use scsi_cli.Prelude.{
  All, Bool, Bool-cases, List, [], ap, arith, false, if◌then◌else◌, inl, inr, not, pos, refl, text,
  true, ℕ, ℤ, ◌&&◌, ◌++◌, ◌+◌, ◌||◌, ◌∙◌, ◌∷◌, ◌≡◌,
}
use scsi_cli.Clib.Compare.{strncmp_eq}
use scsi_cli.Fibre.Port.{count_rports}
use scsi_cli.Loop.{after, is_dot}
use scsi_cli.World.{Dirent}

-- The entries that count as remote ports.
abbrev pub is_rport : Dirent → Bool
is_rport e = not (is_dot e.d_name) && strncmp_eq e.d_name (text "rport") 5

unfoldable pub rports : List Dirent → ℕ
rports [] = 0
rports (e ∷ es) = let rest = rports es in if is_rport e then rest + 1 else rest

-- An entry at which get_adapter_details stores the number.
abbrev pub IsOther : Dirent → Type 0
IsOther e = (is_dot e.d_name ≡ false) × (strncmp_eq e.d_name (text "rport") 5 ≡ false)

-- An entry at which it does not.
abbrev pub IsPassed : Dirent → Type 0
IsPassed e = (is_dot e.d_name || strncmp_eq e.d_name (text "rport") 5) ≡ true

passed :
    (es : List Dirent) (n : ℕ) (no_rports : ℤ)
    → All IsPassed es
    → count_rports es n no_rports ≡ no_rports
unfolding count_rports
passed [] n no_rports h = refl
passed (e ∷ es) n no_rports (h, hs) = elim (Bool-cases (is_dot e.d_name)) [
  | inl dot ↦ rw dot (passed es n no_rports hs)
  | inr other ↦ rw (other, simp other at h) (passed es (n + 1) no_rports hs)
]

-- The loop of get_adapter_details stores as no_rports the number of remote ports that stand before
-- the last entry that is neither a remote port nor "." or "..".
pub count_rports_lem :
    (before after : List Dirent) (e : Dirent) (n : ℕ) (no_rports : ℤ)
    → IsOther e
    → All IsPassed after
    → count_rports (before ++ (e ∷ after)) n no_rports ≡ pos (n + rports before)
unfolding count_rports rports
count_rports_lem [] after e n no_rports (a, b) h =
    rw (a, b, passed after n (pos n) h) (ap pos (omega arith))
count_rports_lem (x ∷ xs) after e n no_rports o h = elim (Bool-cases (is_dot x.d_name)) [
  | inl dot ↦ rw dot (count_rports_lem xs after e n no_rports o h)
  | inr other ↦ elim (Bool-cases (strncmp_eq x.d_name (text "rport") 5)) [
    | inl port ↦
        rw (other, port) (count_rports_lem xs after e (n + 1) no_rports o h ∙ ap pos (omega arith))
    | inr neither ↦ rw (other, neither) (count_rports_lem xs after e n (pos n) o h)
  ]
]
