-- ===== src/Sysfs/Frees.antt =====
-- The rounds between an allocation routine of scsi_utils.c and the routine that frees the structure.
use scsi_cli.Prelude.{Option, none, some}
use scsi_cli.Device.Disk.{ScsiDeviceInfo, zero_scsi_device}
use scsi_cli.Device.Fibre.{FcDeviceInfo, zero_fc_device}
use scsi_cli.Device.Iscsi.{IscsiDevInfo, zero_iscsi_device}
use scsi_cli.Sysfs.{
  alloc_fc_dev, alloc_iscsi_dev, alloc_scsi_dev, put_fc_dev, put_iscsi_dev, put_scsi_dev,
}
use scsi_cli.World.{M, ◌>>=◌, ◌>>◌}
use scsi_cli.World.Frees.{Frees, Frees-free, Keeps-malloc, frees_rules}
use scsi_cli.World.Keeps.{Keeps}

module _ {A : Type 0} where
  pub Keeps-alloc_scsi_dev :
      (f : Option ScsiDeviceInfo → M A)
      → Keeps (f none)
      → ((d : ScsiDeviceInfo) → Frees (f (some d)))
      → Keeps (alloc_scsi_dev >>= f)
  unfolding alloc_scsi_dev
  Keeps-alloc_scsi_dev f kn ks = Keeps-malloc zero_scsi_device f kn (ks zero_scsi_device)

  pub Keeps-alloc_fc_dev :
      (f : Option FcDeviceInfo → M A)
      → Keeps (f none)
      → ((d : FcDeviceInfo) → Frees (f (some d)))
      → Keeps (alloc_fc_dev >>= f)
  unfolding alloc_fc_dev
  Keeps-alloc_fc_dev f kn ks = Keeps-malloc zero_fc_device f kn (ks zero_fc_device)

  pub Keeps-alloc_iscsi_dev :
      (f : Option IscsiDevInfo → M A)
      → Keeps (f none)
      → ((d : IscsiDevInfo) → Frees (f (some d)))
      → Keeps (alloc_iscsi_dev >>= f)
  unfolding alloc_iscsi_dev
  Keeps-alloc_iscsi_dev f kn ks = Keeps-malloc zero_iscsi_device f kn (ks zero_iscsi_device)

  pub Frees-put_scsi_dev : (k : M A) → Keeps k → Frees (put_scsi_dev >> k)
  unfolding put_scsi_dev
  Frees-put_scsi_dev k kk = Frees-free k kk

  pub Frees-put_fc_dev : (k : M A) → Keeps k → Frees (put_fc_dev >> k)
  unfolding put_fc_dev
  Frees-put_fc_dev k kk = Frees-free k kk

  pub Frees-put_iscsi_dev : (k : M A) → Keeps k → Frees (put_iscsi_dev >> k)
  unfolding put_iscsi_dev
  Frees-put_iscsi_dev k kk = Frees-free k kk

pub ruleset alloc_rules = (
  frees_rules, Keeps-alloc_scsi_dev, Keeps-alloc_fc_dev, Keeps-alloc_iscsi_dev, Frees-put_scsi_dev,
  Frees-put_fc_dev, Frees-put_iscsi_dev,
)
