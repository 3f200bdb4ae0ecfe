-- ===== src/Fibre/Adapter.antt =====
-- scsi_fcp_utils.c: the first half of get_fc_info, which depends on the driver.
use scsi_cli.Prelude.{Option, Text, some, text, ◌++◌}
use scsi_cli.Attribute.{entry_path, read_text, ◌>>=◌}
use scsi_cli.Clib.Printf.{truncated}
use scsi_cli.Device.Fibre.{FcDeviceInfo}
use scsi_cli.Print.{remove_space}
use scsi_cli.World.{System}

-- the attributes of a qla2xxx adapter
unfoldable pub collect_qla : System → Text → FcDeviceInfo → Option FcDeviceInfo
collect_qla sys scsi_path fc = do
  model_desc ← read_text sys 64 (entry_path 2048 scsi_path (text "model_desc"))
  product_name ← read_text sys 128 (entry_path 2048 scsi_path (text "model_name"))
  drv_version ← read_text sys 128 (entry_path 2048 scsi_path (text "driver_version"))
  fw_version ← read_text sys 128 (entry_path 2048 scsi_path (text "fw_version"))
  port_speed ← read_text sys 128 (entry_path 2048 scsi_path (text "port_speed"))
  serial_num ← read_text sys 128 (entry_path 2048 scsi_path (text "serial_num"))
  some (record fc {
    model_desc = some model_desc;
    product_name = some product_name;
    drv_version = some drv_version;
    fw_version = some fw_version;
    port_speed = some port_speed;
    serial_num = some serial_num;
  })

-- the attributes of an lpfc adapter
unfoldable pub collect_lpfc : System → Text → Text → Text → FcDeviceInfo → Option FcDeviceInfo
unfolding remove_space
collect_lpfc sys scsi_path sys_path driver fc = do
  fw_version ← read_text sys 128 (entry_path 2048 scsi_path (text "fwrev"))
  model_desc ← read_text sys 128 (entry_path 2048 scsi_path (text "modeldesc"))
  product_name ← read_text sys 128 (entry_path 2048 scsi_path (text "modelname"))
  serial_num ← read_text sys 128 (entry_path 2048 scsi_path (text "serialnum"))
  port_speed ← read_text sys 128 (entry_path 2048 sys_path (text "speed"))
  port_speed_moved ← remove_space port_speed
  let module_path = truncated 2048 (text "/sys/module/" ++ (driver ++ text "/version"))
  drv_version ← read_text sys 128 module_path
  some (record fc {
    fw_version = some fw_version;
    model_desc = some model_desc;
    product_name = some product_name;
    serial_num = some serial_num;
    port_speed = some port_speed_moved;
    drv_version = some drv_version;
  })
