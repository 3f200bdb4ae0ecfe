-- ===== src/Disk/Show.antt =====
-- scsi_disk_utils.c: the details of one disk.
use scsi_cli.Prelude.{
  Text, einval, enodev, if_null, if◌then◌else◌, length, pos, some, text, ℕ, ℤ, ◌+◌, ◌==◌,
}
use scsi_cli.Clib.Compare.{strcmp_eq, strncmp_eq}
use scsi_cli.Clib.Printf.{snprintf_format}
use scsi_cli.Device.{nvme_disk_details, scsi_disk_details}
use scsi_cli.Device.Disk.{ScsiDeviceInfo}
use scsi_cli.Disk.Nvme.{collect_nvme}
use scsi_cli.Disk.Scsi.{collect_scsi}
use scsi_cli.Loop.{Flow, for_each_dir_with, next}
use scsi_cli.World.{Dirent, M, System, closedir, emit, lift, opendir, pure, say, shown, ◌>>=◌, ◌>>◌}

-- show_enclosure_details, after `sub_cmd` = argv[2]
unfoldable pub show_enclosure_details : Text → ScsiDeviceInfo → M ℤ
show_enclosure_details sub_cmd d =
    if strcmp_eq sub_cmd (text "enclosure")
    then pure einval
    else if_null d.disk_name (pure (pos 0)) (λ name. (do say "%s: %s\n"; pure (pos 0)))

module _ (sys : System) where
  -- get_single_nvme_disk_details
  unfoldable pub get_single_nvme_disk_details : Text → ScsiDeviceInfo → M ScsiDeviceInfo
  unfolding collect_nvme
  get_single_nvme_disk_details name d = do
    full ← lift (collect_nvme sys name d)
    emit (shown (nvme_disk_details full))
    pure full

  -- get_single_scsi_disk_details
  unfoldable pub get_single_scsi_disk_details : Text → ScsiDeviceInfo → M ScsiDeviceInfo
  unfolding collect_scsi
  get_single_scsi_disk_details name d = do
    full ← lift (collect_scsi sys name d)
    emit (shown (scsi_disk_details full))
    pure full

  -- one round of the loop of show_disk_details, with the counter and the structure
  unfoldable pub show_round : Text → ℕ × ScsiDeviceInfo → Dirent → M (Flow × (ℕ × ScsiDeviceInfo))
  unfolding get_single_nvme_disk_details get_single_scsi_disk_details
  show_round disk_name (count, d) e =
      if strncmp_eq e.d_name disk_name (length disk_name)
      then (if strncmp_eq disk_name (text "nvme") 4
          then (do full ← get_single_nvme_disk_details disk_name d; pure (next, (count + 1, full)))
          else (do full ← get_single_scsi_disk_details disk_name d; pure (next, (count + 1, full))))
      else pure (next, (count, d))

  -- show_disk_details: the structure comes back beside the code
  unfoldable pub show_disk_details : Text → ScsiDeviceInfo → M (ℤ × ScsiDeviceInfo)
  unfolding opendir closedir for_each_dir_with show_round snprintf_format
  show_disk_details argv3 d = do
    dir ← opendir sys (text "/sys/block")
    if_null dir (pure (enodev, d)) (λ entries. (do
      disk_name ← lift (snprintf_format 16 (some argv3))
      (_, state) ← for_each_dir_with entries (0, d) (show_round disk_name)
      closedir
      pure (if state.0 == 1 then pos 1 else enodev, state.1)))
