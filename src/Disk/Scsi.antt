-- ===== src/Disk/Scsi.antt =====
-- scsi_disk_utils.c: what get_single_scsi_disk_details collects below /sys/block/<disk>.
use scsi_cli.Prelude.{Option, Text, some, text, ◌++◌}
use scsi_cli.Attribute.{device_path, entry_path, read_int, read_text, read_u64, ◌>>=◌}
use scsi_cli.Clib.Printf.{truncated}
use scsi_cli.Device.Disk.{ScsiDeviceInfo}
use scsi_cli.Disk.Queue.{get_disk_queue_data}
use scsi_cli.World.{System}

-- get_single_scsi_disk_details up to the printing
unfoldable pub collect_scsi : System → Text → ScsiDeviceInfo → Option ScsiDeviceInfo
unfolding get_disk_queue_data
collect_scsi sys name d = do
  let disk_path = truncated 128 (text "/sys/block/" ++ name)
  model ← read_text sys 64 (device_path 1024 disk_path (text "model"))
  timeout ← read_int sys 64 (device_path 1024 disk_path (text "timeout"))
  rev ← read_text sys 64 (device_path 1024 disk_path (text "rev"))
  state ← read_text sys 64 (device_path 1024 disk_path (text "dh_state"))
  iotmo_cnt ← read_u64 sys 64 (device_path 1024 disk_path (text "iotmo_cnt"))
  iodone_cnt ← read_u64 sys 64 (device_path 1024 disk_path (text "iodone_cnt"))
  ioerr_cnt ← read_u64 sys 64 (device_path 1024 disk_path (text "ioerr_cnt"))
  iorequest_cnt ← read_u64 sys 64 (device_path 1024 disk_path (text "iorequest_cnt"))
  iocounterbits ← read_u64 sys 64 (device_path 1024 disk_path (text "iocounterbits"))
  evt_capacity_change_reported ←
      read_int sys 64 (device_path 1024 disk_path (text "evt_capacity_change_reported"))
  evt_inquiry_change_reported ←
      read_int sys 64 (device_path 1024 disk_path (text "evt_inquiry_change_reported"))
  evt_lun_change_reported ←
      read_int sys 64 (device_path 1024 disk_path (text "evt_lun_change_reported"))
  evt_media_change ← read_int sys 64 (device_path 1024 disk_path (text "evt_media_change"))
  evt_mode_parameter_change_reported ←
      read_int sys 64 (device_path 1024 disk_path (text "evt_mode_parameter_change_reported"))
  evt_soft_threshold_reached ←
      read_int sys 64 (device_path 1024 disk_path (text "evt_soft_threshold_reached"))
  queue_type ← read_text sys 64 (device_path 1024 disk_path (text "queue_type"))
  queue_depth ← read_int sys 64 (device_path 1024 disk_path (text "queue_depth"))
  alignment_offset ← read_u64 sys 64 (entry_path 1024 disk_path (text "alignment_offset"))
  discard_alignment ← read_u64 sys 64 (entry_path 1024 disk_path (text "discard_alignment"))
  size ← read_u64 sys 64 (entry_path 1024 disk_path (text "size"))
  capability ← read_int sys 64 (entry_path 1024 disk_path (text "capability"))
  ext_range ← read_int sys 64 (entry_path 1024 disk_path (text "ext_range"))
  range ← read_int sys 64 (entry_path 1024 disk_path (text "range"))
  wwid ← read_text sys 64 (device_path 1024 disk_path (text "wwid"))
  max_sectors ← read_u64 sys 64 (device_path 1024 disk_path (text "max_sectors"))
  eh_timeout ← read_int sys 64 (device_path 1024 disk_path (text "eh_timeout"))
  cdl_enabled ← read_int sys 64 (device_path 1024 disk_path (text "cdl_enabled"))
  cdl_supported ← read_int sys 64 (device_path 1024 disk_path (text "cdl_supported"))
  vendor ← read_text sys 64 (device_path 1024 disk_path (text "vendor"))
  q ← get_disk_queue_data sys disk_path d.q_data
  some (record d {
    disk_path = some disk_path;
    disk_name = some name;
    disk_type = text "disk";
    model = some model;
    timeout = timeout;
    rev = some rev;
    state = some state;
    iotmo_cnt = iotmo_cnt;
    iodone_cnt = iodone_cnt;
    ioerr_cnt = ioerr_cnt;
    iorequest_cnt = iorequest_cnt;
    iocounterbits = iocounterbits;
    evt_capacity_change_reported = evt_capacity_change_reported;
    evt_inquiry_change_reported = evt_inquiry_change_reported;
    evt_lun_change_reported = evt_lun_change_reported;
    evt_media_change = evt_media_change;
    evt_mode_parameter_change_reported = evt_mode_parameter_change_reported;
    evt_soft_threshold_reached = evt_soft_threshold_reached;
    queue_type = some queue_type;
    queue_depth = queue_depth;
    alignment_offset = alignment_offset;
    discard_alignment = discard_alignment;
    size = size;
    capability = capability;
    ext_range = ext_range;
    range = range;
    wwid = some wwid;
    max_sectors = max_sectors;
    eh_timeout = eh_timeout;
    cdl_enabled = cdl_enabled;
    cdl_supported = cdl_supported;
    vendor = some vendor;
    q_data = q;
  })
