-- ===== src/Device.antt =====
-- The structures that the program fills and prints.
pub mod Queue
pub mod Disk
pub mod Fibre
pub mod Iscsi
use scsi_cli.Prelude.{List, Option, Text}
use scsi_cli.Device.Disk.{ScsiDeviceInfo}
use scsi_cli.Device.Fibre.{FcDeviceInfo, FcRportInfo}
use scsi_cli.Device.Iscsi.{IscsiConnection, IscsiDevInfo, IscsiSession}
use scsi_cli.Device.Queue.{DiskStats}

-- What a printing routine is called on: one constructor for each routine of scsi_print.c and
-- scsi_help.c that shows a structure, a header or a fixed text.
pub data Shown : Type 0 where
  disk_header nvme_disk_header generic_disk_header mpath_disk_header : Shown
  enclosure_header fc_dev_header fc_rport_header iscsi_dev_header : Shown
  disk_info nvme_disk_info generic_disk_info mpath_disk_info enclosure_info : ScsiDeviceInfo → Shown
  scsi_disk_details nvme_disk_details : ScsiDeviceInfo → Shown
  disk_stats : DiskStats → Text → Shown
  fc_dev fc_info fc_port_stats : FcDeviceInfo → Shown
  fc_rport_info : FcRportInfo → Shown
  iscsi_dev : IscsiDevInfo → Shown
  iscsi_header : Text → Option Text → Shown
  iscsi_session_info iscsi_scsi_disk : IscsiSession → Shown
  iscsi_connection_info : IscsiConnection → Shown
  attached_disk : Text → Text → Shown
  subcommands : Text → List (Text × Text) → Shown
  general_help list_help stats_help version : Shown
