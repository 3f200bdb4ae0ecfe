-- ===== src/Sysfs/Keeps.antt =====
-- scsi_sysfs_utils.c: what its routines do to the structures in use and to files.
use scsi_cli.Prelude.{Text}
use scsi_cli.Device.Disk.{ScsiDeviceInfo}
use scsi_cli.Loop.Keeps.{loop_rules}
use scsi_cli.Sysfs.{get_device_entry, get_device_numbers, get_hctl_info}
use scsi_cli.World.{System}
use scsi_cli.World.Keeps.{Keeps, keeps_rules}

pub Keeps-get_device_numbers :
    (sys : System) (name : Text) (d : ScsiDeviceInfo) → Keeps (get_device_numbers sys name d)
unfolding get_device_numbers
Keeps-get_device_numbers sys name d = search keeps_rules depth 9

pub Keeps-get_device_entry : (sys : System) (path : Text) → Keeps (get_device_entry sys path)
unfolding get_device_entry
Keeps-get_device_entry sys path = search keeps_rules depth 9

pub Keeps-get_hctl_info : (sys : System) (d : ScsiDeviceInfo) → Keeps (get_hctl_info sys d)
unfolding get_hctl_info
Keeps-get_hctl_info sys d = search keeps_rules depth 9

pub ruleset sysfs_rules =
    (loop_rules, Keeps-get_device_numbers, Keeps-get_device_entry, Keeps-get_hctl_info)
