-- ===== src/Iscsi/Disks.antt =====
-- scsi_iscsi_utils.c: the disks of a session.
use scsi_cli.Prelude.{
  List, Option, Text, enodev, eq_ℤ, get_or, if_null, if◌then◌else◌, increment, length, not, pos,
  text, to_int, ℤ, ◌++◌, ◌==◌,
}
use scsi_cli.Attribute.{entry_path, read_text}
use scsi_cli.Clib.Compare.{strncmp_eq}
use scsi_cli.Clib.Number.{strtoull}
use scsi_cli.Clib.Printf.{snprintf_format, truncated}
use scsi_cli.Clib.Scan.{scan_hctl}
use scsi_cli.Device.{attached_disk, iscsi_header, iscsi_scsi_disk}
use scsi_cli.Device.Iscsi.{IscsiSession}
use scsi_cli.Disk.Types.{storage_array_controller}
use scsi_cli.Loop.{Flow, for_each_dir_with, for_each_with, next}
use scsi_cli.Sysfs.{get_device_entry}
use scsi_cli.World.{Dirent, M, System, closedir, emit, lift, opendir, pure, shown, ◌>>=◌, ◌>>◌}

-- The stores of the sscanf in get_iscsi_disk_hctl.
unfoldable pub store_scsi : List ℤ → IscsiSession → IscsiSession
store_scsi v s = record s {
  scsi_channel = get_or v 0 s.scsi_channel;
  scsi_bus = get_or v 1 s.scsi_bus;
  scsi_id = get_or v 2 s.scsi_id;
  scsi_lun = get_or v 3 s.scsi_lun;
}

module _ (sys : System) where
  -- the block under `count == 4` of get_iscsi_disk_hctl
  unfoldable pub show_iscsi_disk : Text → IscsiSession → M (Unit {0})
  unfolding get_device_entry snprintf_format read_text
  show_iscsi_disk name sess = do
    let disk = text "/sys/class/scsi_disk/" ++ name
    entry ← get_device_entry sys (truncated 2048 (disk ++ text "/device/block"))
    disk_name ← lift (snprintf_format 64 entry)
    disk_state ← lift (read_text sys 64 (truncated 2048 (disk ++ text "/device/state")))
    emit (shown (iscsi_scsi_disk sess))
    emit (shown (attached_disk disk_name disk_state))

  -- one round of the loop of get_iscsi_disk_hctl
  unfoldable pub lun_round : Text → IscsiSession → Dirent → M (Flow × IscsiSession)
  unfolding store_scsi read_text show_iscsi_disk
  lun_round disk_path sess e = if not e.is_directory then pure (next, sess) else (do
    let values = scan_hctl e.d_name
    type_text ←
        lift (
          read_text sys 32 (truncated 1024 (disk_path ++ (text "/" ++ (e.d_name ++ text "/type")))))
    if eq_ℤ (to_int (strtoull type_text)) storage_array_controller
        then pure (next, store_scsi values sess)
        else (do
          let stored = store_scsi values sess
          let counted : IscsiSession = record stored { lun_count = increment stored.lun_count }
          if length values == 4
              then (do show_iscsi_disk e.d_name counted; pure (next, counted))
              else pure (next, counted)))

  -- get_iscsi_disk_hctl: the loop ends at the end of the directory, where `dent` is NULL.
  unfoldable pub get_iscsi_disk_hctl : Option Text → Text → IscsiSession → M (ℤ × IscsiSession)
  unfolding opendir closedir for_each_with lun_round
  get_iscsi_disk_hctl host disk_path sess = do
    dir ← opendir sys disk_path
    if_null dir (pure (enodev, sess)) (λ entries. (do
      emit (shown (iscsi_header (text "LUN") host))
      (_, counted) ← for_each_with entries sess (lun_round disk_path)
      closedir
      pure (enodev, counted)))

  -- one round of the loop of get_session_scsi_disks
  unfoldable pub target_round : Option Text → Text → IscsiSession → Dirent → M (Flow × IscsiSession)
  unfolding get_iscsi_disk_hctl
  target_round host session_path sess e =
      if strncmp_eq e.d_name (text "target") 6
      then (do
        (_, counted) ← get_iscsi_disk_hctl host (entry_path 4096 session_path e.d_name) sess
        pure (next, counted))
      else pure (next, sess)

  -- get_session_scsi_disks
  unfoldable pub get_session_scsi_disks : Option Text → Text → IscsiSession → M (ℤ × IscsiSession)
  unfolding opendir closedir for_each_dir_with target_round
  get_session_scsi_disks host session_path sess = do
    dir ← opendir sys session_path
    if_null dir (pure (enodev, sess)) (λ entries. (do
      (_, counted) ← for_each_dir_with entries sess (target_round host session_path)
      closedir
      pure (pos 0, counted)))
