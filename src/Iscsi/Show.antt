-- ===== src/Iscsi/Show.antt =====
-- scsi_iscsi_utils.c: the commands that list and show iSCSI hosts.
use scsi_cli.Prelude.{
  Text, einval, enodev, if_null, if◌then◌else◌, is_negative, not, pos, some, text, ℤ,
}
use scsi_cli.Device.{
  iscsi_connection_info, iscsi_dev, iscsi_dev_header, iscsi_header, iscsi_session_info,
}
use scsi_cli.Device.Iscsi.{IscsiConnection, IscsiDevInfo, IscsiSession}
use scsi_cli.Iscsi.Attributes.{collect_connection, collect_session}
use scsi_cli.Iscsi.Disks.{get_session_scsi_disks}
use scsi_cli.Iscsi.Fill.{
  fill_connection_info, fill_session_info, first_with, get_iscsi_transport, iscsi_host_path,
}
use scsi_cli.Loop.{Flow, after, for_each_dir, give, next}
use scsi_cli.Sysfs.{alloc_iscsi_dev, get_device_count, put_iscsi_dev}
use scsi_cli.World.{
  Dirent, M, System, closedir, emit, free, label, lift, malloc, opendir, pure, say, shown, ◌>>=◌,
  ◌>>◌,
}

module _ (sys : System) where
  -- get_iscsi_session_info. The stream of the session's directory stays open.
  unfoldable pub get_iscsi_session_info : IscsiDevInfo → IscsiSession → M (ℤ × IscsiSession)
  unfolding collect_session opendir first_with get_session_scsi_disks
  get_iscsi_session_info d sess = do
    name ← lift d.session_name
    known ← lift (collect_session sys name sess)
    session_path ← lift d.session_path
    dir ← opendir sys session_path
    if_null dir (pure (enodev, known)) (λ entries. (do
      emit (shown (iscsi_header (text "Session") (some name)))
      emit (shown (iscsi_session_info known))
      if_null (first_with (text "target") entries) (pure (pos 0, known)) (λ _. (do
        (_, counted) ← get_session_scsi_disks sys d.host_name session_path known
        pure (pos 0, counted)))))

  -- get_iscsi_connection_info returns 0 where it returns.
  unfoldable pub get_iscsi_connection_info : IscsiDevInfo → IscsiConnection → M IscsiConnection
  unfolding collect_connection
  get_iscsi_connection_info d conn = do
    name ← lift d.connection_name
    known ← lift (collect_connection sys name conn)
    emit (shown (iscsi_header (text "Connection") (some name)))
    emit (shown (iscsi_connection_info known))
    pure known

  -- one round of the loop of list_iscsi_devs
  unfoldable pub iscsi_round : Dirent → M Flow
  unfolding alloc_iscsi_dev put_iscsi_dev get_iscsi_transport fill_session_info fill_connection_info
  iscsi_round e = do
    got ← alloc_iscsi_dev
    if_null got (pure (give einval)) (λ fresh. (do
      (_, carried) ←
          get_iscsi_transport sys
            (record fresh { host_name = some e.d_name; sys_dev_path = some iscsi_host_path })
      session ← fill_session_info sys carried
      connected ← fill_connection_info sys session
      emit (shown (iscsi_dev connected))
      put_iscsi_dev
      pure next))

  -- list_iscsi_devs: the number of entries
  unfoldable pub list_iscsi_devs : M ℤ
  unfolding get_device_count opendir closedir for_each_dir iscsi_round
  list_iscsi_devs = if is_negative (get_device_count sys iscsi_host_path) then pure enodev else (do
    dir ← opendir sys iscsi_host_path
    if_null dir (do say "\n No iSCSI host configured \n"; pure einval)
        (λ entries. (do
          emit (label (text "iSCSI"))
          emit (shown iscsi_dev_header)
          flow ← for_each_dir entries iscsi_round
          after flow (closedir >> pure (get_device_count sys iscsi_host_path)))))

  -- show_iscsi_details: the session and the connection start as malloc leaves them. If the second
  -- malloc fails, free is called on `sess` alone.
  unfoldable pub show_iscsi_details : Text → IscsiDevInfo → M ℤ
  unfolding malloc free fill_session_info get_iscsi_session_info fill_connection_info
      get_iscsi_connection_info
  show_iscsi_details argv3 d = do
    got_session ← malloc
    if not got_session then pure enodev else (do
      got_connection ← malloc
      if not got_connection then (do free; pure enodev) else (do
        session ←
            fill_session_info sys
              (record d { host_name = some argv3; sys_dev_path = some iscsi_host_path })
        _ ← get_iscsi_session_info session sys.raw_session
        connected ← fill_connection_info sys session
        _ ← get_iscsi_connection_info connected sys.raw_connection
        free
        free
        pure (pos 0)))
