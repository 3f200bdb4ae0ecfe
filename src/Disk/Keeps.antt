-- ===== src/Disk/Keeps.antt =====
-- scsi_disk_utils.c: what the commands that list disks do to the structures in use and to files.
pub mod Enclosure
pub mod Show
use scsi_cli.Prelude.{Bool, Text, ℤ}
use scsi_cli.Device.{Shown}
use scsi_cli.Device.Disk.{ScsiDeviceInfo}
use scsi_cli.Disk.Lists.{
  block_round, block_work, controller_work, generic_work, list_block_devs, list_cdrom_devs,
  list_controllers, list_generic_devs, list_matching, list_multipath_devs, list_nvme_devs,
  list_tape_devs, located, multipath_work, nvme_round, nvme_work, typed, with_device,
}
use scsi_cli.Loop.{give, next}
use scsi_cli.Sysfs.Frees.{Frees-put_scsi_dev, Keeps-alloc_scsi_dev}
use scsi_cli.Sysfs.Keeps.{sysfs_rules}
use scsi_cli.World.{Dirent, M, System}
use scsi_cli.World.Frees.{Frees-then}
use scsi_cli.World.Keeps.{Keeps, Keeps-pure}

pub Keeps-with_device :
    (failure : ℤ) (work : ScsiDeviceInfo → M (Unit {0}))
    → ((d : ScsiDeviceInfo) → Keeps (work d))
    → Keeps (with_device failure work)
unfolding with_device
Keeps-with_device failure work h =
    Keeps-alloc_scsi_dev _ (Keeps-pure (give failure))
      (λ d. Frees-then (work d) _ (h d) (Frees-put_scsi_dev _ (Keeps-pure next)))

module _ (sys : System) where
  pub Keeps-typed : (d : ScsiDeviceInfo) → Keeps (typed sys d)
  unfolding typed
  Keeps-typed d = search sysfs_rules

  pub Keeps-located : (name : Text) (d : ScsiDeviceInfo) → Keeps (located sys name d)
  unfolding located
  Keeps-located name d = search sysfs_rules

  pub Keeps-block_work : (name : Text) (d : ScsiDeviceInfo) → Keeps (block_work sys name d)
  unfolding block_work
  Keeps-block_work name d = search (sysfs_rules, Keeps-typed, Keeps-located)

  pub Keeps-block_round : (e : Dirent) → Keeps (block_round sys e)
  unfolding block_round
  Keeps-block_round e = search (sysfs_rules, Keeps-block_work, Keeps-with_device)

  pub Keeps-nvme_work : (name : Text) (d : ScsiDeviceInfo) → Keeps (nvme_work sys name d)
  unfolding nvme_work
  Keeps-nvme_work name d = search (sysfs_rules, Keeps-located)

  pub Keeps-nvme_round : (e : Dirent) → Keeps (nvme_round sys e)
  unfolding nvme_round
  Keeps-nvme_round e = search (sysfs_rules, Keeps-nvme_work, Keeps-with_device)

  pub Keeps-list_nvme_devs : Keeps (list_nvme_devs sys)
  unfolding list_nvme_devs
  Keeps-list_nvme_devs = search (sysfs_rules, Keeps-nvme_round) depth 12

  pub Keeps-list_block_devs : Keeps (list_block_devs sys)
  unfolding list_block_devs
  Keeps-list_block_devs = search (sysfs_rules, Keeps-block_round, Keeps-list_nvme_devs) depth 12

  Keeps-controller_work : (name : Text) (d : ScsiDeviceInfo) → Keeps (controller_work sys name d)
  unfolding controller_work
  Keeps-controller_work name d = search (sysfs_rules, Keeps-typed, Keeps-located) depth 9

  pub Keeps-list_controllers : Keeps (list_controllers sys)
  unfolding list_controllers
  Keeps-list_controllers = search (sysfs_rules, Keeps-with_device, Keeps-controller_work) depth 12

  Keeps-list_matching :
      (path title : Text) (header : Shown) (test : Text → Bool)
      (work : Text → ScsiDeviceInfo → M (Unit {0}))
      → ((name : Text) (d : ScsiDeviceInfo) → Keeps (work name d))
      → Keeps (list_matching sys path title header test work)
  unfolding list_matching
  Keeps-list_matching path title header test work h =
      search (sysfs_rules, Keeps-with_device, h) depth 12

  pub Keeps-list_cdrom_devs : Keeps (list_cdrom_devs sys)
  unfolding list_cdrom_devs
  Keeps-list_cdrom_devs = search (sysfs_rules, Keeps-list_matching, Keeps-typed)

  pub Keeps-list_tape_devs : Keeps (list_tape_devs sys)
  unfolding list_tape_devs
  Keeps-list_tape_devs = search (sysfs_rules, Keeps-list_matching, Keeps-typed)

  Keeps-generic_work : (name : Text) (d : ScsiDeviceInfo) → Keeps (generic_work sys name d)
  unfolding generic_work
  Keeps-generic_work name d = search (sysfs_rules, Keeps-located)

  pub Keeps-list_generic_devs : Keeps (list_generic_devs sys)
  unfolding list_generic_devs
  Keeps-list_generic_devs = search (Keeps-list_matching, Keeps-generic_work)

  Keeps-multipath_work : (name : Text) (d : ScsiDeviceInfo) → Keeps (multipath_work sys name d)
  unfolding multipath_work
  Keeps-multipath_work name d = search (sysfs_rules, Keeps-located)

  pub Keeps-list_multipath_devs : Keeps (list_multipath_devs sys)
  unfolding list_multipath_devs
  Keeps-list_multipath_devs = search (Keeps-list_matching, Keeps-multipath_work)
