-- ===== src/Print/Unshown.antt =====
-- scsi_print.c: what print_scsi_disk_details leaves out.
use scsi_cli.Prelude.{refl, ℤ, ◌≡◌}
use scsi_cli.Device.Disk.{ScsiDeviceInfo}
use scsi_cli.Print.Details.{print_scsi_disk_details}

-- What print_scsi_disk_details prints does not depend on evt_soft_threshold_reached.
pub print_scsi_disk_details-soft_threshold :
    (d : ScsiDeviceInfo) (reached : ℤ)
    → print_scsi_disk_details (record d { evt_soft_threshold_reached = reached })
      ≡ print_scsi_disk_details d
unfolding print_scsi_disk_details
print_scsi_disk_details-soft_threshold d reached = refl
