-- ===== src/Sysfs/RoundTrip.antt =====
-- scsi_sysfs_utils.c: get_hctl_info on a directory that the kernel names after the device, and
-- load_sysfs_path on a file of one line.
use scsi_cli.Prelude.{
  Bool-cases, List, Option, Text, [], ap, arith, einval, enodev, false, if◌then◌else◌, inl, inr,
  leb, length, length-append, length-take, ltb, ltb→lt, none, pos, refl, some, take, take_all, text,
  true, ℕ, ℤ, ◌++◌, ◌+◌, ◌-◌, ◌<◌, ◌^◌, ◌∙◌, ◌∷◌, ◌≡◌,
}
use scsi_cli.Clib.Scan.{scan_hctl}
use scsi_cli.Clib.Scan.RoundTrip.{hctl_name, scan_hctl-hctl_name}
use scsi_cli.Device.Disk.{ScsiDeviceInfo}
use scsi_cli.Sysfs.{
  drop_last_newline, find_hctl, get_hctl_info, hctl_path, load_sysfs_path, store_hctl,
}
use scsi_cli.World.{Dirent, System, World, closedir, pure, ◌>>=◌}
use scsi_cli.World.Runs.{after_opendir}

-- The entries of the directory, "." and ".." first as readdir gives them.
abbrev pub named_entries : Text → List Dirent → List Dirent
named_entries name es =
    record { d_name = text "."; is_directory = true }
    ∷ record { d_name = text ".."; is_directory = true }
    ∷ record { d_name = name; is_directory = true }
    ∷ es

find_hctl-named :
    (name : Text) (es : List Dirent) (d : ScsiDeviceInfo) (h c t l : ℤ)
    → scan_hctl name ≡ h ∷ c ∷ t ∷ l ∷ []
    → find_hctl (named_entries name es) d
      ≡ (true, record d { host = h; bus = c; target = t; lun = l })
unfolding find_hctl store_hctl scan_hctl
find_hctl-named name es d h c t l e = rw e refl

-- Where the first entry after "." and ".." is a directory named after four numbers below 2^31 in
-- decimal, with colons between them, get_hctl_info gives 0, stores exactly the four numbers and
-- leaves the state as it was.
pub get_hctl_info-hctl_name :
    (sys : System) (d : ScsiDeviceInfo) (w : World) (es : List Dirent) (h c t l : ℕ)
    → h < 2 ^ 31
    → c < 2 ^ 31
    → t < 2 ^ 31
    → l < 2 ^ 31
    → sys.directory (hctl_path sys d) ≡ some (named_entries (hctl_name h c t l) es)
    → get_hctl_info sys d w
      ≡ some ((pos 0, record d { host = pos h; bus = pos c; target = pos t; lun = pos l }), w)
unfolding get_hctl_info closedir pure ◌>>=◌
get_hctl_info-hctl_name sys d w es h c t l p q r s dir =
    let found =
      find_hctl-named (hctl_name h c t l) es d (pos h) (pos c) (pos t) (pos l)
        (scan_hctl-hctl_name h c t l p q r s) in
    let closed : w.streams + 1 - 1 ≡ w.streams = omega arith in
    let result : ℕ → Option ((ℤ × ScsiDeviceInfo) × World) = λ n. some (
      (pos 0, record d { host = pos h; bus = pos c; target = pos t; lun = pos l }),
      record w { streams = n },
    ) in
    after_opendir sys (hctl_path sys d) w _ dir
    ∙ ap
        (λ f. some ((if f.0 then pos 0 else enodev, f.1), record w { streams = w.streams + 1 - 1 }))
        found
    ∙ ap result closed

drop_last_newline-line : (s : Text) → drop_last_newline (s ++ (b'\n' ∷ [])) ≡ s
unfolding drop_last_newline
drop_last_newline-line [] = refl
drop_last_newline-line (c ∷ []) = refl
drop_last_newline-line (c ∷ d ∷ s) = ap (λ t. c ∷ t) (drop_last_newline-line (d ∷ s))

-- Of a file with one line, load_sysfs_path stores the line without its newline and gives 0 where
-- the line with its newline is shorter than the buffer, and gives -EINVAL otherwise.
pub load_sysfs_path-line :
    (sys : System) (path s : Text) (len : ℕ)
    → sys.file path ≡ some (s ++ (b'\n' ∷ []))
    → load_sysfs_path sys path len
      ≡ (if ltb (length s + 1) len then (pos 0, some s) else (einval, none))
unfolding load_sysfs_path
load_sysfs_path-line sys path s len file =
    let contents = s ++ (b'\n' ∷ []) in
    let size : length contents ≡ length s + 1 = length-append s (b'\n' ∷ []) in
    let cut = length-take len contents in
    elim (Bool-cases (ltb (length s + 1) len)) [
      | inl fits ↦
          let short : leb len (length (take len contents)) ≡ false =
            ground (arith, size, cut, fits) in
          let whole = take_all len contents (omega (arith, size, ltb→lt _ _ fits)) in
          rw (fits, file, short, whole, drop_last_newline-line s) refl
      | inr long ↦
          let cut_off : leb len (length (take len contents)) ≡ true =
            ground (arith, size, cut, long) in
          rw (long, file, cut_off) refl
    ]
