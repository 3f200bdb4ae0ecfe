-- ===== src/Disk/Info.antt =====
-- scsi_disk_utils.c: statistics, vendor, model and type of one disk. `none` is undefined behaviour.
use scsi_cli.Prelude.{List, Option, get_or, some, text, ℕ, ◌++◌}
use scsi_cli.Attribute.{device_path, read_int, read_text, ◌>>=◌}
use scsi_cli.Clib.Printf.{snprintf_format, truncated}
use scsi_cli.Device.Disk.{ScsiDeviceInfo}
use scsi_cli.Device.Queue.{DiskStats}
use scsi_cli.Disk.Types.{dev_type_to_dev_name}
use scsi_cli.World.{System}

-- The stores of the sscanf in get_disk_stats: a value that was not converted keeps the old one.
unfoldable pub store_stats : List ℕ → DiskStats → DiskStats
store_stats v s = record s {
  ios = (get_or v 0 s.ios.0, get_or v 4 s.ios.1);
  merges = (get_or v 1 s.merges.0, get_or v 5 s.merges.1);
  sectors = (get_or v 2 s.sectors.0, get_or v 6 s.sectors.1);
  ticks = (get_or v 3 s.ticks.0, get_or v 7 s.ticks.1);
  io_ticks = get_or v 8 s.io_ticks;
  time_in_queue = get_or v 9 s.time_in_queue;
}

-- get_disk_vendor_model
unfoldable pub get_disk_vendor_model : System → ScsiDeviceInfo → Option ScsiDeviceInfo
get_disk_vendor_model sys d = do
  disk_path ← d.disk_path
  vendor ← read_text sys 32 (device_path 1024 disk_path (text "vendor"))
  model ← read_text sys 32 (device_path 1024 disk_path (text "model"))
  rev ← read_text sys 32 (device_path 1024 disk_path (text "rev"))
  some (record d { vendor = some vendor; model = some model; rev = some rev })

-- get_device_mapper_model
unfoldable pub get_device_mapper_model : System → ScsiDeviceInfo → Option ScsiDeviceInfo
get_device_mapper_model sys d = do
  disk_path ← d.disk_path
  model ← read_text sys 32 (truncated 1024 (disk_path ++ text "/dm/name"))
  some (record d { model = some model })

-- get_nvme_device_model
unfoldable pub get_nvme_device_model : System → ScsiDeviceInfo → Option ScsiDeviceInfo
get_nvme_device_model sys d = do
  disk_path ← d.disk_path
  model ← read_text sys 32 (device_path 1024 disk_path (text "model"))
  rev ← read_text sys 32 (device_path 1024 disk_path (text "firmware_rev"))
  some (record d { model = some model; rev = some rev })

-- get_disk_type
unfoldable pub get_disk_type : System → ScsiDeviceInfo → Option ScsiDeviceInfo
get_disk_type sys d = do
  disk_path ← d.disk_path
  device_type ← read_int sys 8 (device_path 1024 disk_path (text "type"))
  some (record d { device_type = device_type })

-- snprintf(disk_type, sizeof(disk_type), dev_type_to_dev_name(device_type))
unfoldable pub store_type_name : ScsiDeviceInfo → Option ScsiDeviceInfo
unfolding dev_type_to_dev_name snprintf_format
store_type_name d = do
  name ← snprintf_format 32 (some (dev_type_to_dev_name d.device_type))
  some (record d { disk_type = name })
