-- ===== src/Disk/Keeps/Enclosure.antt =====
-- scsi_disk_utils.c: what list_enclosure does to the structures in use and to files.
use scsi_cli.Prelude.{ℤ}
use scsi_cli.Device.Disk.{ScsiDeviceInfo}
use scsi_cli.Disk.Enclosure.{
  enclosure_round, get_enclosure_details, list_enclosure, name_enclosure, validate_enclosure_type,
}
use scsi_cli.Sysfs.Frees.{alloc_rules}
use scsi_cli.Sysfs.Keeps.{sysfs_rules}
use scsi_cli.World.{Dirent, System}
use scsi_cli.World.Keeps.{Keeps}

module _ (sys : System) where
  Keeps-name_enclosure : (d : ScsiDeviceInfo) → Keeps (name_enclosure d)
  unfolding name_enclosure
  Keeps-name_enclosure d = search sysfs_rules

  Keeps-validate_enclosure_type : (d : ScsiDeviceInfo) → Keeps (validate_enclosure_type sys d)
  unfolding validate_enclosure_type
  Keeps-validate_enclosure_type d = search (sysfs_rules, Keeps-name_enclosure)

  Keeps-get_enclosure_details : (d : ScsiDeviceInfo) → Keeps (get_enclosure_details sys d)
  unfolding get_enclosure_details
  Keeps-get_enclosure_details d = search sysfs_rules depth 9

  Keeps-enclosure_round : (err : ℤ) (e : Dirent) → Keeps (enclosure_round sys err e)
  unfolding enclosure_round
  Keeps-enclosure_round err e =
      search (sysfs_rules, alloc_rules, Keeps-validate_enclosure_type, Keeps-get_enclosure_details)
        depth 15

  pub Keeps-list_enclosure : Keeps (list_enclosure sys)
  unfolding list_enclosure
  Keeps-list_enclosure = search (sysfs_rules, Keeps-enclosure_round) depth 12
