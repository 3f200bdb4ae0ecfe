-- ===== src/Iscsi/Info.antt =====
-- scsi_iscsi_utils.c: get_iscsi_info, which nothing calls.
pub mod Keeps
use scsi_cli.Prelude.{
  Text, einval, enodev, if_null, if◌then◌else◌, increment, not, pos, some, text, ℤ, ◌++◌,
}
use scsi_cli.Attribute.{print_text}
use scsi_cli.Clib.Compare.{strncmp_eq}
use scsi_cli.Clib.Printf.{sprintf_into}
use scsi_cli.Device.Iscsi.{IscsiConnection, IscsiDevInfo, IscsiSession}
use scsi_cli.Iscsi.Fill.{iscsi_host_path}
use scsi_cli.Iscsi.Show.{get_iscsi_connection_info, get_iscsi_session_info}
use scsi_cli.Loop.{Flow, for_each_dir_with, next}
use scsi_cli.World.{
  Dirent, M, System, closedir, free, lift, malloc, opendir, pure, say, ◌>>=◌, ◌>>◌,
}

module _ (sys : System) where
  -- the three texts of the host, in a buffer of 64 bytes, which are freed with the host unread
  unfoldable pub read_host : Text → M (Unit {0})
  unfolding print_text
  read_host host_path = do
    _ ← lift (print_text sys 64 (host_path ++ text "/hwaddress"))
    _ ← lift (print_text sys 64 (host_path ++ text "/ipaddress"))
    _ ← lift (print_text sys 64 (host_path ++ text "/netdev"))
    pure tt

  -- the loop over the sessions; they are stored over each other
  unfoldable pub session_round :
      Text → IscsiDevInfo × IscsiSession → Dirent → M (Flow × (IscsiDevInfo × IscsiSession))
  unfolding sprintf_into get_iscsi_session_info
  session_round dev_path (d, session) e =
      if strncmp_eq e.d_name (text "session") 7
      then (do
        session_path ← lift (sprintf_into 2048 (dev_path ++ (text "/" ++ e.d_name)))
        let found = record d {
          session_name = some e.d_name;
          session_path = some session_path;
          session_count = increment d.session_count;
        }
        (_, known) ← get_iscsi_session_info sys found session
        pure (next, (found, known)))
      else pure (next, (d, session))

  -- the loop over the connections
  unfoldable pub connection_round :
      IscsiDevInfo × IscsiConnection → Dirent → M (Flow × (IscsiDevInfo × IscsiConnection))
  unfolding get_iscsi_connection_info
  connection_round (d, connection) e =
      if strncmp_eq e.d_name (text "connection") 10
      then (do
        let found = record d {
          connection_name = some e.d_name;
          connection_count = increment d.connection_count;
        }
        known ← get_iscsi_connection_info sys found connection
        pure (next, (found, known)))
      else pure (next, (d, connection))

  -- from the first attribute of the host on, with the session and the connection that malloc gave
  unfoldable pub collect_iscsi : Text → IscsiDevInfo → M (ℤ × IscsiDevInfo)
  unfolding sprintf_into opendir closedir for_each_dir_with read_host session_round connection_round
  collect_iscsi host_path d = do
    read_host host_path
    let dev_path = host_path ++ text "/device"
    dir ← opendir sys dev_path
    if_null dir (do say " No iSCSI Sessions found for %s \n"; pure (enodev, d))
        (λ entries. (do
          (_, sessions) ← for_each_dir_with entries (d, sys.raw_session) (session_round dev_path)
          closedir
          session_name ← lift sessions.0.session_name
          session_path ← lift (sprintf_into 1024 (dev_path ++ (text "/" ++ session_name)))
          inner ← opendir sys session_path
          if_null inner (do say " No iSCSI Connections found for %s \n"; pure (enodev, sessions.0))
              (λ connection_entries. (do
                (_, connections) ←
                    for_each_dir_with connection_entries (sessions.0, sys.raw_connection)
                      connection_round
                closedir
                pure (pos 0, connections.0)))))

  -- get_iscsi_info: three allocations, each undone where a later one fails and at the end
  unfoldable pub get_iscsi_info : IscsiDevInfo → M (ℤ × IscsiDevInfo)
  unfolding sprintf_into malloc free collect_iscsi
  get_iscsi_info d = do
    host_name ← lift d.host_name
    host_path ← lift (sprintf_into 512 (iscsi_host_path ++ (text "/" ++ host_name)))
    host ← malloc
    if not host then pure (einval, d) else (do
      r1 ← (do
        session ← malloc
        if not session then pure (enodev, d) else (do
          r2 ← (do
            connection ← malloc
            if not connection
                then pure (enodev, d)
                else (do r3 ← collect_iscsi host_path d; free; pure r3))
          free
          pure r2))
      free
      pure r1)
