-- ===== src/Iscsi/Keeps.antt =====
-- scsi_iscsi_utils.c: what list_iscsi_devs does to the structures in use and to files.
use scsi_cli.Device.Iscsi.{IscsiDevInfo}
use scsi_cli.Iscsi.Fill.{fill_connection_info, fill_session_info, get_iscsi_transport}
use scsi_cli.Iscsi.Show.{iscsi_round, list_iscsi_devs}
use scsi_cli.Sysfs.Frees.{alloc_rules}
use scsi_cli.Sysfs.Keeps.{sysfs_rules}
use scsi_cli.World.{Dirent, System}
use scsi_cli.World.Keeps.{Keeps}

module _ (sys : System) where
  Keeps-get_iscsi_transport : (d : IscsiDevInfo) → Keeps (get_iscsi_transport sys d)
  unfolding get_iscsi_transport
  Keeps-get_iscsi_transport d = search sysfs_rules depth 9

  Keeps-fill_session_info : (d : IscsiDevInfo) → Keeps (fill_session_info sys d)
  unfolding fill_session_info
  Keeps-fill_session_info d = search sysfs_rules depth 12

  Keeps-fill_connection_info : (d : IscsiDevInfo) → Keeps (fill_connection_info sys d)
  unfolding fill_connection_info
  Keeps-fill_connection_info d = search sysfs_rules depth 12

  Keeps-iscsi_round : (e : Dirent) → Keeps (iscsi_round sys e)
  unfolding iscsi_round
  Keeps-iscsi_round e =
      search
        (
          sysfs_rules, alloc_rules, Keeps-get_iscsi_transport, Keeps-fill_session_info,
          Keeps-fill_connection_info,
        )
        depth 15

  pub Keeps-list_iscsi_devs : Keeps (list_iscsi_devs sys)
  unfolding list_iscsi_devs
  Keeps-list_iscsi_devs = search (sysfs_rules, Keeps-iscsi_round) depth 12
