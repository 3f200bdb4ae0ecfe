-- ===== src/Fibre/Keeps.antt =====
-- scsi_fcp_utils.c: what list_fc_adapters does to the structures in use and to files.
use scsi_cli.Prelude.{Text, ℕ}
use scsi_cli.Device.Fibre.{FcDeviceInfo}
use scsi_cli.Fibre.Info.{collect_link, finish_fc_info, get_fc_info}
use scsi_cli.Fibre.Port.{get_driver_info, get_symbolic_name}
use scsi_cli.Fibre.Ports.{fc_round, list_fc_adapters}
use scsi_cli.Sysfs.Frees.{alloc_rules}
use scsi_cli.Sysfs.Keeps.{sysfs_rules}
use scsi_cli.World.{Dirent, System}
use scsi_cli.World.Keeps.{Keeps}

module _ (sys : System) where
  Keeps-get_symbolic_name : (fc : FcDeviceInfo) → Keeps (get_symbolic_name sys fc)
  unfolding get_symbolic_name
  Keeps-get_symbolic_name fc = search sysfs_rules depth 9

  Keeps-get_driver_info : (fc : FcDeviceInfo) → Keeps (get_driver_info sys fc)
  unfolding get_driver_info
  Keeps-get_driver_info fc = search sysfs_rules depth 9

  Keeps-collect_link :
      (scsi_path sys_path : Text) (fc : FcDeviceInfo)
      → Keeps (collect_link sys scsi_path sys_path fc)
  unfolding collect_link
  Keeps-collect_link scsi_path sys_path fc = search sysfs_rules depth 12

  Keeps-finish_fc_info :
      (scsi_path sys_path : Text) (fc : FcDeviceInfo)
      → Keeps (finish_fc_info sys scsi_path sys_path fc)
  unfolding finish_fc_info
  Keeps-finish_fc_info scsi_path sys_path fc = search (sysfs_rules, Keeps-collect_link) depth 9

  Keeps-get_fc_info : (fc : FcDeviceInfo) → Keeps (get_fc_info sys fc)
  unfolding get_fc_info
  Keeps-get_fc_info fc = search (sysfs_rules, Keeps-finish_fc_info) depth 12

  Keeps-fc_round : (count : ℕ) (e : Dirent) → Keeps (fc_round sys count e)
  unfolding fc_round
  Keeps-fc_round count e =
      search
        (
          sysfs_rules, alloc_rules, Keeps-get_symbolic_name, Keeps-get_driver_info,
          Keeps-get_fc_info,
        )
        depth 15

  pub Keeps-list_fc_adapters : Keeps (list_fc_adapters sys)
  unfolding list_fc_adapters
  Keeps-list_fc_adapters = search (sysfs_rules, Keeps-fc_round) depth 12
