-- ===== src/Disk/Keeps/Show.antt =====
-- scsi_disk_utils.c: what show_disk_details does to the structures in use and to files.
use scsi_cli.Prelude.{Text, ℕ}
use scsi_cli.Device.Disk.{ScsiDeviceInfo}
use scsi_cli.Disk.Show.{
  get_single_nvme_disk_details, get_single_scsi_disk_details, show_disk_details, show_round,
}
use scsi_cli.Loop.Keeps.{loop_rules}
use scsi_cli.World.{Dirent, System}
use scsi_cli.World.Keeps.{Keeps}

module _ (sys : System) where
  Keeps-show_round :
      (name : Text) (s : ℕ × ScsiDeviceInfo) (e : Dirent) → Keeps (show_round sys name s e)
  unfolding show_round get_single_nvme_disk_details get_single_scsi_disk_details
  Keeps-show_round name (count, d) e = search loop_rules depth 12

  pub Keeps-show_disk_details :
      (argv3 : Text) (d : ScsiDeviceInfo) → Keeps (show_disk_details sys argv3 d)
  unfolding show_disk_details
  Keeps-show_disk_details argv3 d = search (loop_rules, Keeps-show_round) depth 12
