-- ===== src/Iscsi/Info/Keeps.antt =====
-- scsi_iscsi_utils.c: what get_iscsi_info does to the structures in use and to files.
use scsi_cli.Prelude.{Option, Text, ℤ}
use scsi_cli.Device.Iscsi.{IscsiConnection, IscsiDevInfo, IscsiSession}
use scsi_cli.Iscsi.Disks.{
  get_iscsi_disk_hctl, get_session_scsi_disks, lun_round, show_iscsi_disk, target_round,
}
use scsi_cli.Iscsi.Info.{collect_iscsi, connection_round, get_iscsi_info, read_host, session_round}
use scsi_cli.Iscsi.Show.{get_iscsi_connection_info, get_iscsi_session_info}
use scsi_cli.Sysfs.Keeps.{sysfs_rules}
use scsi_cli.World.{Dirent, M, System, free, pure, ◌>>=◌, ◌>>◌}
use scsi_cli.World.Frees.{Frees, Frees-bind, Frees-free, Keeps-malloc_if}
use scsi_cli.World.Keeps.{Keeps, Keeps-bind, Keeps-lift, Keeps-pure}

module _ (sys : System) where
  Keeps-show_iscsi_disk :
      (name : Text) (sess : IscsiSession) → Keeps (show_iscsi_disk sys name sess)
  unfolding show_iscsi_disk
  Keeps-show_iscsi_disk name sess = search sysfs_rules depth 12

  Keeps-lun_round :
      (path : Text) (sess : IscsiSession) (e : Dirent) → Keeps (lun_round sys path sess e)
  unfolding lun_round
  Keeps-lun_round path sess e = search (sysfs_rules, Keeps-show_iscsi_disk) depth 12

  Keeps-get_iscsi_disk_hctl :
      (host : Option Text) (path : Text) (sess : IscsiSession)
      → Keeps (get_iscsi_disk_hctl sys host path sess)
  unfolding get_iscsi_disk_hctl
  Keeps-get_iscsi_disk_hctl host path sess = search (sysfs_rules, Keeps-lun_round) depth 12

  Keeps-target_round :
      (host : Option Text) (path : Text) (sess : IscsiSession) (e : Dirent)
      → Keeps (target_round sys host path sess e)
  unfolding target_round
  Keeps-target_round host path sess e = search (sysfs_rules, Keeps-get_iscsi_disk_hctl) depth 12

  Keeps-get_session_scsi_disks :
      (host : Option Text) (path : Text) (sess : IscsiSession)
      → Keeps (get_session_scsi_disks sys host path sess)
  unfolding get_session_scsi_disks
  Keeps-get_session_scsi_disks host path sess = search (sysfs_rules, Keeps-target_round) depth 12

  Keeps-get_iscsi_session_info :
      (d : IscsiDevInfo) (sess : IscsiSession) → Keeps (get_iscsi_session_info sys d sess)
  unfolding get_iscsi_session_info
  Keeps-get_iscsi_session_info d sess = search (sysfs_rules, Keeps-get_session_scsi_disks) depth 15

  Keeps-get_iscsi_connection_info :
      (d : IscsiDevInfo) (conn : IscsiConnection) → Keeps (get_iscsi_connection_info sys d conn)
  unfolding get_iscsi_connection_info
  Keeps-get_iscsi_connection_info d conn = search sysfs_rules depth 12

  Keeps-read_host : (path : Text) → Keeps (read_host sys path)
  unfolding read_host
  Keeps-read_host path = search sysfs_rules depth 12

  Keeps-session_round :
      (path : Text) (s : IscsiDevInfo × IscsiSession) (e : Dirent)
      → Keeps (session_round sys path s e)
  unfolding session_round
  Keeps-session_round path s e = search (sysfs_rules, Keeps-get_iscsi_session_info) depth 12

  Keeps-connection_round :
      (s : IscsiDevInfo × IscsiConnection) (e : Dirent) → Keeps (connection_round sys s e)
  unfolding connection_round
  Keeps-connection_round s e = search (sysfs_rules, Keeps-get_iscsi_connection_info) depth 12

  Keeps-collect_iscsi : (path : Text) (d : IscsiDevInfo) → Keeps (collect_iscsi sys path d)
  unfolding collect_iscsi
  Keeps-collect_iscsi path d =
      search (sysfs_rules, Keeps-read_host, Keeps-session_round, Keeps-connection_round) depth 20

  freed_after : (m : M (ℤ × IscsiDevInfo)) → Keeps m → Frees (do r ← m; free; pure r)
  freed_after m h = Frees-bind m _ h (λ r. Frees-free (pure r) (Keeps-pure r))

  -- get_iscsi_info, where it is defined, leaves as many structures allocated as it found and
  -- writes to no file, whichever of its allocations fails.
  pub Keeps-get_iscsi_info : (d : IscsiDevInfo) → Keeps (get_iscsi_info sys d)
  unfolding get_iscsi_info
  Keeps-get_iscsi_info d = Keeps-bind _ _ (Keeps-lift _) (λ host_name.
      Keeps-bind _ _ (Keeps-lift _) (λ host_path. Keeps-malloc_if _ _ (Keeps-pure _) (
        freed_after _ (
          Keeps-malloc_if _ _ (Keeps-pure _) (
            freed_after _ (
              Keeps-malloc_if _ _ (Keeps-pure _)
                (freed_after _ (Keeps-collect_iscsi host_path d))))))))
