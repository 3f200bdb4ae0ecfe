-- ===== src/Fibre/Info.antt =====
-- scsi_fcp_utils.c: get_fc_info.
use scsi_cli.Prelude.{
  Text, einval, if_null, if◌then◌else◌, length, pos, some, text, to_int, ℤ, ◌++◌,
}
use scsi_cli.Attribute.{entry_path, read_text}
use scsi_cli.Clib.Compare.{strncmp_eq}
use scsi_cli.Clib.Number.{strtol}
use scsi_cli.Clib.Printf.{snprintf_format, truncated}
use scsi_cli.Clib.Stdio.{fgets}
use scsi_cli.Device.Fibre.{FcDeviceInfo}
use scsi_cli.Fibre.Adapter.{collect_lpfc, collect_qla}
use scsi_cli.World.{M, System, lift, pure, say, ◌>>=◌, ◌>>◌}

-- scsi_path
abbrev pub scsi_host_path : Text → Text → Text
scsi_host_path sys_path host = truncated 64 (sys_path ++ (text "/device/scsi_host/" ++ host))

module _ (sys : System) where
  -- the second half of get_fc_info, from supported_classes on
  unfoldable pub collect_link : Text → Text → FcDeviceInfo → M (ℤ × FcDeviceInfo)
  unfolding read_text
  collect_link scsi_path sys_path fc = do
    supported_class ← lift (read_text sys 128 (entry_path 2048 sys_path (text "supported_classes")))
    supported_speed ← lift (read_text sys 128 (entry_path 2048 sys_path (text "supported_speeds")))
    loss ← lift (read_text sys 128 (entry_path 2048 sys_path (text "dev_loss_tmo")))
    active_mode ← lift (read_text sys 128 (entry_path 2048 scsi_path (text "active_mode")))
    pure (
      pos 0,
      record fc {
        supported_class = some supported_class;
        supported_speed = some supported_speed;
        dev_loss_tmo = to_int (strtol loss);
        active_mode = some active_mode;
      },
    )

  -- the second half of get_fc_info: the last character of the line is left out
  unfoldable pub finish_fc_info : Text → Text → FcDeviceInfo → M (ℤ × FcDeviceInfo)
  unfolding fgets snprintf_format collect_link
  finish_fc_info scsi_path sys_path fc =
      if_null (sys.file (entry_path 2048 scsi_path (text "link_state"))) (pure (einval, fc))
        (λ contents. if_null (fgets 64 contents) (pure (einval, fc)) (λ p. (do
          state ← lift (snprintf_format (length p) (some p))
          collect_link scsi_path sys_path (record fc { link_state = some state }))))

  -- get_fc_info. Without a driver name, strncmp is called on a null pointer.
  unfoldable pub get_fc_info : FcDeviceInfo → M (ℤ × FcDeviceInfo)
  unfolding collect_qla collect_lpfc finish_fc_info
  get_fc_info fc = do
    sys_path ← lift fc.sys_dev_path
    host ← lift fc.host_name
    driver ← lift fc.driver_name
    let scsi_path = scsi_host_path sys_path host
    if strncmp_eq driver (text "qla2xxx") 7
        then (do
          known ← lift (collect_qla sys scsi_path fc)
          finish_fc_info scsi_path sys_path known)
        else if strncmp_eq driver (text "lpfc") 4
        then (do
          known ← lift (collect_lpfc sys scsi_path sys_path driver fc)
          finish_fc_info scsi_path sys_path known)
        else (do say "Unknown Adapter"; pure (pos 0, fc))
