-- ===== src/Fibre/Requests.antt =====
-- scsi_fcp_utils.c: the requests for a Fibre Channel port that are not implemented yet.
use scsi_cli.Prelude.{Option, Text, eio, enodev, if_null, if◌then◌else◌, length, ltb, pos, ℤ}
use scsi_cli.Sysfs.{alloc_fc_dev, put_fc_dev}
use scsi_cli.World.{M, lift, pure, ◌>>=◌, ◌>>◌}

-- The body that the five routines share: `none` for argv[3] is NULL.
unfoldable pub fcport_request : Option Text → M ℤ
fcport_request argv3 = do
  name ← lift argv3
  if ltb (length name) 4
      then pure eio
      else (do got ← alloc_fc_dev; if_null got (pure enodev) (λ fc. (do put_fc_dev; pure (pos 0))))

-- get_fcport_error_count
unfoldable pub get_fcport_error_count : Option Text → M ℤ
get_fcport_error_count = fcport_request

-- scsi_scan_fcport_dev
unfoldable pub scsi_scan_fcport_dev : Option Text → M ℤ
scsi_scan_fcport_dev = fcport_request

-- set_fcport_offline
unfoldable pub set_fcport_offline : Option Text → M ℤ
set_fcport_offline = fcport_request

-- set_fcport_online
unfoldable pub set_fcport_online : Option Text → M ℤ
set_fcport_online = fcport_request

-- set_fcport_alias
unfoldable pub set_fcport_alias : Option Text → M ℤ
set_fcport_alias = fcport_request
