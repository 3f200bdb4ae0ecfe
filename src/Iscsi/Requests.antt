-- ===== src/Iscsi/Requests.antt =====
-- scsi_iscsi_utils.c: the requests for an iSCSI host that are not implemented yet.
use scsi_cli.Prelude.{
  Option, Text, eio, enodev, if_null, if◌then◌else◌, length, ltb, pos, text, ℤ, ◌++◌,
}
use scsi_cli.Clib.Printf.{sprintf_into}
use scsi_cli.Sysfs.{alloc_iscsi_dev, put_iscsi_dev}
use scsi_cli.World.{M, lift, pure, ◌>>=◌, ◌>>◌}

-- The body that the five routines share: `none` for argv[3] is NULL. The path of the host goes into a
-- buffer of 256 bytes.
unfoldable pub iscsi_request : Option Text → M ℤ
iscsi_request argv3 = do
  name ← lift argv3
  if ltb (length name) 4 then pure eio else (do
    got ← alloc_iscsi_dev
    if_null got (pure enodev) (λ d. (do
      _ ← lift (sprintf_into 256 (text "/sys/class/iscsi_host/" ++ name))
      put_iscsi_dev
      pure (pos 0))))

-- get_iscsi_error_count
unfoldable pub get_iscsi_error_count : Option Text → M ℤ
get_iscsi_error_count = iscsi_request

-- scsi_scan_iscsi_dev
unfoldable pub scsi_scan_iscsi_dev : Option Text → M ℤ
scsi_scan_iscsi_dev = iscsi_request

-- set_iscsi_dev_offline
unfoldable pub set_iscsi_dev_offline : Option Text → M ℤ
set_iscsi_dev_offline = iscsi_request

-- set_iscsi_dev_online
unfoldable pub set_iscsi_dev_online : Option Text → M ℤ
set_iscsi_dev_online = iscsi_request

-- set_iscsi_alias
unfoldable pub set_iscsi_alias : Option Text → M ℤ
set_iscsi_alias = iscsi_request
