-- ===== src/Sysfs/Correct.antt =====
-- scsi_sysfs_utils.c: what the routines that read sysfs give.
use scsi_cli.Prelude.{
  All, Bool, Bool-cases, List, Option, Text, [], ap, arith, enodev, false, if_null, if◌then◌else◌,
  inl, inr, length, none, pos, refl, some, suc, true, zero, ℕ, ℤ, ◌&&◌, ◌+◌, ◌==◌, ◌∙◌, ◌∷◌, ◌≡◌,
  ◌≤◌,
}
use scsi_cli.Clib.Scan.{scan_hctl}
use scsi_cli.Clib.Stdio.{fgets, line, line-length}
use scsi_cli.Device.Disk.{ScsiDeviceInfo}
use scsi_cli.Print.{remove_newline}
use scsi_cli.Print.Correct.{remove_newline_lem}
use scsi_cli.Sysfs.{find_hctl, get_device_count, minus_two, open_sysfs_stats_file, store_hctl}
use scsi_cli.World.{Dirent, System}

remove_newline-length : (s : Text) → length (remove_newline s) ≤ length s
unfolding remove_newline
remove_newline-length [] = omega arith
remove_newline-length (c ∷ s) = ground (arith, remove_newline-length s)

count_others :
    (m n : ℕ)
    → m ≡ n + 2
    → (if m == 2 then enodev else minus_two m) ≡ (if n == 0 then enodev else pos n)
unfolding minus_two
count_others zero n e = absurd (omega arith)
count_others (suc zero) n e = absurd (omega arith)
count_others (suc (suc k)) n e = ground arith

module _ (sys : System) where
  -- What open_sysfs_stats_file gives has at most 63 characters, and no newline.
  pub open_sysfs_stats_file_lem :
      (path : Text)
      → if_null
          (open_sysfs_stats_file sys path)
          Unit
          (λ s. (length s ≤ 63) × All (λ c. (c == b'\n') ≡ false) s)
  unfolding open_sysfs_stats_file fgets
  open_sysfs_stats_file_lem path = contents (sys.file path)
    where
      contents :
          (o : Option Text)
          → if_null
              (if_null o none (λ c. if_null (fgets 64 c) none (λ p. some (remove_newline p))))
              Unit
              (λ s. (length s ≤ 63) × All (λ c. (c == b'\n') ≡ false) s)
      contents none = tt
      contents (some []) = tt
      contents (some (c ∷ s)) = (
        omega (arith, remove_newline-length (line 63 (c ∷ s)), line-length 63 (c ∷ s)),
        (remove_newline_lem (line 63 (c ∷ s))).0,
      )

  -- On a directory of n + 2 entries, get_device_count gives -ENODEV for n = 0 and n otherwise.
  pub get_device_count_lem :
      (path : Text) (entries : List Dirent) (n : ℕ)
      → sys.directory path ≡ some entries
      → length entries ≡ n + 2
      → get_device_count sys path ≡ (if n == 0 then enodev else pos n)
  unfolding get_device_count
  get_device_count_lem path entries n e l = rw e (count_others (length entries) n l)

-- The numbers of the first directory whose name has the form of four numbers.
unfoldable pub first_hctl : List Dirent → Option (List ℤ)
first_hctl [] = none
first_hctl (e ∷ es) =
    let rest = first_hctl es in
    if e.is_directory && (length (scan_hctl e.d_name) == 4) then some (scan_hctl e.d_name) else rest

overwrite :
    (v u : List ℤ) (d : ScsiDeviceInfo)
    → (length v == 4) ≡ true
    → store_hctl v (store_hctl u d) ≡ store_hctl v d
unfolding store_hctl
overwrite [] u d h = absurd (cc h)
overwrite (a ∷ []) u d h = absurd (cc h)
overwrite (a ∷ b ∷ []) u d h = absurd (cc h)
overwrite (a ∷ b ∷ c ∷ []) u d h = absurd (cc h)
overwrite (a ∷ b ∷ c ∷ l ∷ v) [] d h = refl
overwrite (a ∷ b ∷ c ∷ l ∷ v) (x ∷ []) d h = refl
overwrite (a ∷ b ∷ c ∷ l ∷ v) (x ∷ y ∷ []) d h = refl
overwrite (a ∷ b ∷ c ∷ l ∷ v) (x ∷ y ∷ z ∷ []) d h = refl
overwrite (a ∷ b ∷ c ∷ l ∷ v) (x ∷ y ∷ z ∷ t ∷ u) d h = refl

first_hctl-length : (es : List Dirent) → if_null (first_hctl es) Unit (λ v. (length v == 4) ≡ true)
unfolding first_hctl
first_hctl-length [] = tt
first_hctl-length (e ∷ es) =
    elim (Bool-cases (e.is_directory && (length (scan_hctl e.d_name) == 4))) [
      | inl fits ↦ rw fits (four e.is_directory (length (scan_hctl e.d_name) == 4) fits)
      | inr other ↦ rw other (first_hctl-length es)
    ]
  where
    four : (a b : Bool) → (a && b) ≡ true → b ≡ true
    four true b h = h
    four false b h = absurd (cc h)

skipped :
    (o : Option (List ℤ)) (u : List ℤ) (d : ScsiDeviceInfo) (found : Bool × ScsiDeviceInfo)
    → if_null o Unit (λ v. (length v == 4) ≡ true)
    → if_null o (found.0 ≡ false) (λ v. found ≡ (true, store_hctl v (store_hctl u d)))
    → if_null o (found.0 ≡ false) (λ v. found ≡ (true, store_hctl v d))
skipped none u d found h k = k
skipped (some v) u d found h k = k ∙ ap (λ x. (true, x)) (overwrite v u d h)

-- The loop of get_hctl_info fails where no directory has a name of the form of four numbers, and
-- stores exactly the four numbers of the first such directory otherwise.
pub find_hctl_lem :
    (es : List Dirent) (d : ScsiDeviceInfo)
    → if_null
        (first_hctl es)
        ((find_hctl es d).0 ≡ false)
        (λ v. find_hctl es d ≡ (true, store_hctl v d))
unfolding find_hctl first_hctl
find_hctl_lem [] d = refl
find_hctl_lem (e ∷ es) d = elim (Bool-cases e.is_directory) [
  | inr file ↦ rw file (find_hctl_lem es d)
  | inl dir ↦ elim (Bool-cases (length (scan_hctl e.d_name) == 4)) [
    | inl four ↦ rw (dir, four) refl
    | inr fewer ↦
        rw (dir, fewer)
          (skipped (first_hctl es) (scan_hctl e.d_name) d _ (first_hctl-length es)
            (find_hctl_lem es (store_hctl (scan_hctl e.d_name) d)))
  ]
]
