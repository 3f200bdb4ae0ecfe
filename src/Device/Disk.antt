-- ===== src/Device/Disk.antt =====
-- scsi.h: what is collected about a disk. A `char *` is NULL or a text; the list links are left out,
-- since nothing uses them.
use scsi_cli.Prelude.{Option, Text, [], none, pos, ℕ, ℤ}
use scsi_cli.Device.Queue.{DiskQueueData, DiskStats, zero_disk_stats, zero_queue_data}

pub record ScsiDeviceInfo : Type 0 where
  pub alias_name : Option Text
  pub dstat : DiskStats
  pub major : ℕ
  pub minor : ℕ
  pub host : ℤ
  pub bus : ℤ
  pub target : ℤ
  pub lun : ℤ
  pub device_type : ℤ
  pub disk_type : Text
  pub disk_path : Option Text
  pub disk_name : Option Text
  pub sysfs_root : Option Text
  pub pci_id : Option Text
  pub driver_name : Option Text
  pub model : Option Text
  pub rev : Option Text
  pub wwid : Option Text
  pub queue_type : Option Text
  pub state : Option Text
  pub vendor : Option Text
  pub q_data : DiskQueueData
  pub capability : ℤ
  pub ext_range : ℤ
  pub range : ℤ
  pub timeout : ℤ
  pub eh_timeout : ℤ
  pub queue_depth : ℤ
  pub cdl_enabled : ℤ
  pub cdl_supported : ℤ
  pub max_sectors : ℕ
  pub alignment_offset : ℕ
  pub discard_alignment : ℕ
  pub size : ℕ
  pub iodone_cnt : ℕ
  pub ioerr_cnt : ℕ
  pub iorequest_cnt : ℕ
  pub iotmo_cnt : ℕ
  pub iocounterbits : ℕ
  pub evt_capacity_change_reported : ℤ
  pub evt_inquiry_change_reported : ℤ
  pub evt_lun_change_reported : ℤ
  pub evt_media_change : ℤ
  pub evt_mode_parameter_change_reported : ℤ
  pub evt_soft_threshold_reached : ℤ
  pub zoned_cap : Option Text
  pub fua : ℤ
  pub protection_mode : ℤ
  pub protection_type : ℤ
  pub max_retries : ℤ
  pub max_write_same_blocks : ℤ
  pub max_medium_access_timeouts : ℤ
  pub nsid : Text
  pub nguid : Text
  pub uuid : Text
  pub cntlid : ℤ
  pub kato : ℤ
  pub subsysnqn : Text
  pub serial : Option Text
  pub sqsize : ℤ
  pub numa_node : ℤ
  pub dctype : Option Text
  pub cntrltype : Option Text
  pub transport : Option Text
  pub nuse : ℕ
  pub pci_address : Option Text

-- All bytes 0.
abbrev pub zero_scsi_device : ScsiDeviceInfo
zero_scsi_device = record {
  alias_name = none;
  dstat = zero_disk_stats;
  major = 0;
  minor = 0;
  host = pos 0;
  bus = pos 0;
  target = pos 0;
  lun = pos 0;
  device_type = pos 0;
  disk_type = [];
  disk_path = none;
  disk_name = none;
  sysfs_root = none;
  pci_id = none;
  driver_name = none;
  model = none;
  rev = none;
  wwid = none;
  queue_type = none;
  state = none;
  vendor = none;
  q_data = zero_queue_data;
  capability = pos 0;
  ext_range = pos 0;
  range = pos 0;
  timeout = pos 0;
  eh_timeout = pos 0;
  queue_depth = pos 0;
  cdl_enabled = pos 0;
  cdl_supported = pos 0;
  max_sectors = 0;
  alignment_offset = 0;
  discard_alignment = 0;
  size = 0;
  iodone_cnt = 0;
  ioerr_cnt = 0;
  iorequest_cnt = 0;
  iotmo_cnt = 0;
  iocounterbits = 0;
  evt_capacity_change_reported = pos 0;
  evt_inquiry_change_reported = pos 0;
  evt_lun_change_reported = pos 0;
  evt_media_change = pos 0;
  evt_mode_parameter_change_reported = pos 0;
  evt_soft_threshold_reached = pos 0;
  zoned_cap = none;
  fua = pos 0;
  protection_mode = pos 0;
  protection_type = pos 0;
  max_retries = pos 0;
  max_write_same_blocks = pos 0;
  max_medium_access_timeouts = pos 0;
  nsid = [];
  nguid = [];
  uuid = [];
  cntlid = pos 0;
  kato = pos 0;
  subsysnqn = [];
  serial = none;
  sqsize = pos 0;
  numa_node = pos 0;
  dctype = none;
  cntrltype = none;
  transport = none;
  nuse = 0;
  pci_address = none;
}
