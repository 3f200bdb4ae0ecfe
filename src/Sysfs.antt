-- ===== src/Sysfs.antt =====
-- scsi_sysfs_utils.c and the allocation routines of scsi_utils.c. A routine that fills a structure
-- returns it.
pub mod RoundTrip
pub mod Keeps
pub mod Frees
pub mod Correct
use scsi_cli.Prelude.{
  Bool, List, Option, Text, [], einval, enodev, eq_ℤ, false, if_null, if◌then◌else◌, leb, length,
  negsuc, none, not, pos, some, suc, take, text, to_int, true, zero, ℕ, ℤ, ◌&&◌, ◌++◌, ◌==◌, ◌∷◌,
}
use scsi_cli.Clib.Compare.{strncmp_eq}
use scsi_cli.Clib.Printf.{decimal_int, sprintf_into, truncated}
use scsi_cli.Clib.Scan.{scan_hctl}
use scsi_cli.Clib.Stdio.{fgets}
use scsi_cli.Device.Disk.{ScsiDeviceInfo, zero_scsi_device}
use scsi_cli.Device.Fibre.{FcDeviceInfo, zero_fc_device}
use scsi_cli.Device.Iscsi.{IscsiDevInfo, zero_iscsi_device}
use scsi_cli.Print.{remove_newline}
use scsi_cli.World.{
  Dirent, M, System, closedir, free, lift, malloc, opendir, pure, say, ◌>>=◌, ◌>>◌,
}

-- alloc_scsi_dev
unfoldable pub alloc_scsi_dev : M (Option ScsiDeviceInfo)
unfolding malloc
alloc_scsi_dev = do got ← malloc; pure (if got then some zero_scsi_device else none)

-- alloc_fc_dev
unfoldable pub alloc_fc_dev : M (Option FcDeviceInfo)
unfolding malloc
alloc_fc_dev = do got ← malloc; pure (if got then some zero_fc_device else none)

-- alloc_iscsi_dev
unfoldable pub alloc_iscsi_dev : M (Option IscsiDevInfo)
unfolding malloc
alloc_iscsi_dev = do got ← malloc; pure (if got then some zero_iscsi_device else none)

-- put_scsi_dev, on the structure that alloc_scsi_dev gave
unfoldable pub put_scsi_dev : M (Unit {0})
unfolding free
put_scsi_dev = free

-- put_fc_dev
unfoldable pub put_fc_dev : M (Unit {0})
unfolding free
put_fc_dev = free

-- put_iscsi_dev
unfoldable pub put_iscsi_dev : M (Unit {0})
unfolding free
put_iscsi_dev = free

-- buf[count-1] = 0 if that is a newline
pub drop_last_newline : Text → Text
drop_last_newline [] = []
drop_last_newline (c ∷ []) = if c == b'\n' then [] else c ∷ []
drop_last_newline (c ∷ d ∷ s) = c ∷ drop_last_newline (d ∷ s)

-- count - 2
pub minus_two : ℕ → ℤ
minus_two zero = negsuc 1
minus_two (suc zero) = negsuc 0
minus_two (suc (suc n)) = pos n

-- sscanf(name, "%d:%d:%d:%d", &host, &bus, &target, &lun): the fields before a failure are stored.
unfoldable pub store_hctl : List ℤ → ScsiDeviceInfo → ScsiDeviceInfo
store_hctl [] d = d
store_hctl (h ∷ []) d = record d { host = h }
store_hctl (h ∷ b ∷ []) d = record d { host = h; bus = b }
store_hctl (h ∷ b ∷ t ∷ []) d = record d { host = h; bus = b; target = t }
store_hctl (h ∷ b ∷ t ∷ l ∷ _) d = record d { host = h; bus = b; target = t; lun = l }

-- The loop of get_hctl_info: whether it ended by `break`, and what it stored.
unfoldable pub find_hctl : List Dirent → ScsiDeviceInfo → Bool × ScsiDeviceInfo
find_hctl [] d = (false, d)
find_hctl (e ∷ es) d =
    let skip = find_hctl es d in
    let d' = store_hctl (scan_hctl e.d_name) d in
    let more = find_hctl es d' in
    if not e.is_directory
    then skip
    else if length (scan_hctl e.d_name) == 4
    then (true, d')
    else more

-- The loop of get_device_entry: the first directory whose name begins with "sd".
unfoldable pub first_sd : List Dirent → Option Text
first_sd [] = none
first_sd (e ∷ es) =
    let rest = first_sd es in
    if e.is_directory && strncmp_eq e.d_name (text "sd") 2 then some e.d_name else rest

module _ (sys : System) where
  -- load_sysfs_path: the error code and, on success, what the buffer of `len` bytes holds.
  unfoldable pub load_sysfs_path : Text → ℕ → ℤ × Option Text
  unfolding drop_last_newline
  load_sysfs_path path len = if_null (sys.file path) ((einval, none)) (λ contents.
      let buf = take len contents in
      if leb len (length buf) then (einval, none) else (pos 0, some (drop_last_newline buf)))

  -- validate_sysfs_path: scandir counts "." and ".." too.
  unfoldable pub validate_sysfs_path : Text → M ℤ
  validate_sysfs_path path =
      if_null (sys.directory path) (do say "No Entries found at %s \n"; pure enodev)
        (λ entries. pure (pos (length entries)))

  -- open_sysfs_stats_file; `none` is NULL. Every caller copies the static buffer at once.
  unfoldable pub open_sysfs_stats_file : Text → Option Text
  unfolding fgets remove_newline
  open_sysfs_stats_file path =
      if_null (sys.file path) none
        (λ contents. if_null (fgets 64 contents) none (λ p. some (remove_newline p)))

  -- get_device_numbers. The error code is dropped: 0 is returned on every path.
  unfoldable pub get_device_numbers : Text → ScsiDeviceInfo → M (ℤ × ScsiDeviceInfo)
  unfolding sprintf_into
  get_device_numbers file_name d = do
    dev_path ← lift (sprintf_into 256 (text "/dev/" ++ file_name))
    if eq_ℤ (sys.descriptor dev_path) (pos 0)
        then (do say "\n Invalid disk name %s/%s\n"; pure (pos 0, d))
        else if_null (sys.device_numbers dev_path) (do say "perror"; pure (pos 0, d))
            (λ (st_major, st_minor). pure (pos 0, record d { major = st_major; minor = st_minor }))

  -- get_device_entry; `none` is NULL. Where no entry fits, the stream stays open. The name of an entry
  -- that fits stands in the buffer of the stream that has been closed; the model keeps the name.
  unfoldable pub get_device_entry : Text → M (Option Text)
  unfolding opendir closedir first_sd
  get_device_entry path = do
    dir ← opendir sys path
    if_null dir (pure none) (λ entries.
        if_null (first_sd entries) (pure (some (text "unknown")))
          (λ name. (do closedir; pure (some name))))

  -- the path of get_hctl_info, in a buffer of 256 bytes; %d prints the unsigned numbers as int
  unfoldable pub hctl_path : ScsiDeviceInfo → Text
  unfolding decimal_int to_int
  hctl_path d = truncated 256 (
      text "/sys/dev/block/"
      ++ (decimal_int (to_int d.major)
          ++ (text ":" ++ (decimal_int (to_int d.minor) ++ text "/device/scsi_device"))))

  -- get_hctl_info
  unfoldable pub get_hctl_info : ScsiDeviceInfo → M (ℤ × ScsiDeviceInfo)
  unfolding opendir closedir find_hctl store_hctl
  get_hctl_info d = do
    dir ← opendir sys (hctl_path d)
    if_null dir (pure (enodev, d)) (λ entries. (do
      closedir
      let (found, d') = find_hctl entries d
      pure (if found then pos 0 else enodev, d')))

  -- get_device_count
  unfoldable pub get_device_count : Text → ℤ
  unfolding minus_two
  get_device_count path =
      if_null (sys.directory path) (enodev)
        (λ entries. let count = length entries in if count == 2 then enodev else minus_two count)
