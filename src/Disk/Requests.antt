-- ===== src/Disk/Requests.antt =====
-- scsi_disk_utils.c: the requests for a disk that are not implemented yet. Each checks the name, makes
-- a structure, and frees it.
use scsi_cli.Prelude.{Option, Text, eio, enodev, if_null, if◌then◌else◌, length, pos, some, ℤ, ◌==◌}
use scsi_cli.Clib.Printf.{snprintf_format}
use scsi_cli.Sysfs.{alloc_scsi_dev, put_scsi_dev}
use scsi_cli.World.{M, lift, pure, ◌>>=◌, ◌>>◌}

-- The body that the five routines share. argv[3] is NULL (`none`) where it was not given.
unfoldable pub disk_request : Option Text → M ℤ
disk_request argv3 = do
  name ← lift argv3
  if length name == 0 then pure eio else (do
    _ ← lift (snprintf_format 16 (some name))
    got ← alloc_scsi_dev
    if_null got (pure enodev) (λ d. (do put_scsi_dev; pure (pos 0))))

-- get_disk_error_count
unfoldable pub get_disk_error_count : Option Text → M ℤ
get_disk_error_count = disk_request

-- scsi_scan_disk_dev
unfoldable pub scsi_scan_disk_dev : Option Text → M ℤ
scsi_scan_disk_dev = disk_request

-- set_disk_offline
unfoldable pub set_disk_offline : Option Text → M ℤ
set_disk_offline = disk_request

-- set_disk_online
unfoldable pub set_disk_online : Option Text → M ℤ
set_disk_online = disk_request

-- set_disk_alias
unfoldable pub set_disk_alias : Option Text → M ℤ
set_disk_alias = disk_request
