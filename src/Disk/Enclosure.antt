-- ===== src/Disk/Enclosure.antt =====
-- scsi_disk_utils.c: enclosures.
use scsi_cli.Prelude.{
  Text, eio, enodev, enospc, eq_ℤ, if_null, if◌then◌else◌, is_negative, pos, some, text, to_int, ℤ,
  ◌++◌, ◌||◌,
}
use scsi_cli.Attribute.{device_path, entry_path, read_int, read_text}
use scsi_cli.Clib.Number.{strtol}
use scsi_cli.Clib.Printf.{truncated}
use scsi_cli.Clib.Scan.{scan_hctl}
use scsi_cli.Device.{enclosure_header, enclosure_info}
use scsi_cli.Device.Disk.{ScsiDeviceInfo}
use scsi_cli.Disk.Info.{store_type_name}
use scsi_cli.Disk.Lists.{named, typed}
use scsi_cli.Disk.Types.{dev_type_str, find_type}
use scsi_cli.Loop.{Flow, after, for_each_with, give, next, stop}
use scsi_cli.Sysfs.{alloc_scsi_dev, put_scsi_dev, store_hctl}
use scsi_cli.World.{
  Dirent, M, System, closedir, emit, label, lift, opendir, pure, shown, ◌>>=◌, ◌>>◌,
}

-- the path that validate_enclosure_type builds, in a buffer of 32 bytes
abbrev pub type_path : Text → Text
type_path disk_path = truncated 32 (disk_path ++ text "/device/type")

-- what validate_enclosure_type makes of the number that it has read
unfoldable pub name_enclosure : ScsiDeviceInfo → M (ℤ × ScsiDeviceInfo)
unfolding find_type dev_type_str store_type_name
name_enclosure d =
    if_null (find_type d.device_type dev_type_str) (pure (enodev, d))
      (λ _. (do named ← lift (store_type_name d); pure (pos 0, named)))

module _ (sys : System) where
  -- validate_enclosure_type
  unfoldable pub validate_enclosure_type : ScsiDeviceInfo → M (ℤ × ScsiDeviceInfo)
  unfolding name_enclosure
  validate_enclosure_type d = do
    disk_path ← lift d.disk_path
    value ← lift (read_text sys 8 (type_path disk_path))
    name_enclosure (record d { device_type = to_int (strtol value) })

  -- get_enclosure_details
  unfoldable pub get_enclosure_details : ScsiDeviceInfo → M (ℤ × ScsiDeviceInfo)
  get_enclosure_details d = do
    disk_path ← lift d.disk_path
    components ← lift (read_int sys 8 (entry_path 1024 disk_path (text "components")))
    if is_negative components then pure (eio, d) else (do
      model ← lift (read_text sys 8 (device_path 1024 disk_path (text "model")))
      vendor ← lift (read_text sys 8 (device_path 1024 disk_path (text "vendor")))
      pure (pos 0, record d { model = some model; vendor = some vendor }))

  -- one round of the loop of list_enclosure, with the variable err
  unfoldable pub enclosure_round : ℤ → Dirent → M (Flow × ℤ)
  unfolding alloc_scsi_dev put_scsi_dev validate_enclosure_type get_enclosure_details
  enclosure_round err e = if e.is_directory then pure (next, err) else (do
    got ← alloc_scsi_dev
    if_null got (pure (give enospc, err)) (λ fresh. (do
      let root = text "/sys/class/enclosure"
      let d : ScsiDeviceInfo = record (store_hctl (scan_hctl e.d_name) fresh) {
        sysfs_root = some root;
        disk_name = some e.d_name;
        disk_path = some (entry_path 128 root e.d_name);
      }
      (status, typed) ← validate_enclosure_type d
      if is_negative status then (do put_scsi_dev; pure (give status, status)) else (do
        (_, full) ← get_enclosure_details typed
        emit (shown (enclosure_info full))
        put_scsi_dev
        pure (if eq_ℤ status (pos 4) || eq_ℤ status (pos 0) then stop else next, status)))))

  -- list_enclosure
  unfoldable pub list_enclosure : M ℤ
  unfolding opendir closedir for_each_with enclosure_round
  list_enclosure = do
    dir ← opendir sys (text "/sys/class/enclosure")
    if_null dir (pure enodev) (λ entries. (do
      emit (label (text "Enclosure"))
      emit (shown enclosure_header)
      (flow, err) ← for_each_with entries (pos 0) enclosure_round
      after flow (closedir >> pure err)))
