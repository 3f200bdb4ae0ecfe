-- ===== src/Iscsi/Fill.antt =====
-- scsi_iscsi_utils.c: get_iscsi_transport, fill_session_info, fill_connection_info.
use scsi_cli.Prelude.{
  List, Option, Text, [], einval, if_null, if◌then◌else◌, increment, length, none, not, pos, some,
  text, ℤ, ◌&&◌, ◌++◌, ◌∷◌,
}
use scsi_cli.Attribute.{print_text}
use scsi_cli.Clib.Compare.{strncmp_eq}
use scsi_cli.Clib.Printf.{sprintf_into}
use scsi_cli.Device.Iscsi.{IscsiDevInfo}
use scsi_cli.Loop.{is_dot}
use scsi_cli.World.{Dirent, M, System, closedir, lift, opendir, pure, say, ◌>>=◌, ◌>>◌}

-- SYSFS_ISCSI_HOST_PATH
abbrev pub iscsi_host_path : Text
iscsi_host_path = text "/sys/class/iscsi_host"

-- The loops over a directory that end at the first name with a prefix, "." and ".." left out.
unfoldable pub first_with : Text → List Dirent → Option Text
first_with prefix [] = none
first_with prefix (e ∷ es) =
    let rest = first_with prefix es in
    if not (is_dot e.d_name) && strncmp_eq e.d_name prefix (length prefix)
    then some e.d_name
    else rest

-- The loop of fill_connection_info: the last connection is kept, and all are counted.
unfoldable pub count_connections : Text → List Dirent → IscsiDevInfo → IscsiDevInfo
count_connections session_path [] d = d
count_connections session_path (e ∷ es) d = count_connections session_path es (
    if not (is_dot e.d_name) && strncmp_eq e.d_name (text "connection") 10
    then record d {
      connection_name = some e.d_name;
      connection_count = increment d.connection_count;
      connection_path = some (session_path ++ (text "/" ++ e.d_name));
    }
    else d)

module _ (sys : System) where
  -- get_iscsi_transport
  unfoldable pub get_iscsi_transport : IscsiDevInfo → M (ℤ × IscsiDevInfo)
  unfolding opendir closedir first_with
  get_iscsi_transport d = do
    dir ← opendir sys (text "/sys/class/iscsi_transport")
    if_null dir (pure (einval, d)) (λ entries. (do
      closedir
      if_null (first_with (text "tcp") entries) (pure (pos 0, d))
          (λ name. pure (pos 0, record d { transport_name = some name }))))

  -- fill_session_info returns 0 where it returns.
  unfoldable pub fill_session_info : IscsiDevInfo → M IscsiDevInfo
  unfolding opendir closedir first_with sprintf_into
  fill_session_info d = do
    root ← lift d.sys_dev_path
    host ← lift d.host_name
    host_path ← lift (sprintf_into 512 (root ++ (text "/" ++ (host ++ text "/device"))))
    dir ← opendir sys host_path
    if_null dir (do say " No iSCSI Sessions found for %s \n"; pure d)
        (λ entries. (do
          closedir
          if_null (first_with (text "session") entries) (pure d) (λ name. pure (record d {
            session_name = some name;
            session_path = some (host_path ++ (text "/" ++ name));
            session_count = increment d.session_count;
          }))))

  -- fill_connection_info, once the directory has been read: target name, address and port
  unfoldable pub fill_addresses : Text → IscsiDevInfo → M IscsiDevInfo
  unfolding print_text
  fill_addresses session d = do
    target ←
        lift
          (print_text sys 256 (text "/sys/class/iscsi_session/" ++ (session ++ text "/targetname")))
    connection ← lift d.connection_name
    let path = text "/sys/class/iscsi_connection/" ++ connection
    address ← lift (print_text sys 256 (path ++ text "/address"))
    port ← lift (print_text sys 256 (path ++ text "/port"))
    pure
        (record d { target_name = some target; conn_address = some address; conn_port = some port })

  -- fill_connection_info returns 0 where it returns. A name that is NULL cannot be printed.
  unfoldable pub fill_connection_info : IscsiDevInfo → M IscsiDevInfo
  unfolding opendir closedir count_connections sprintf_into fill_addresses
  fill_connection_info d = do
    host ← lift d.host_name
    session ← lift d.session_name
    session_path ← lift (
        sprintf_into 1024 (text "/sys/class/iscsi_host/" ++ (host ++ (text "/device/" ++ session))))
    dir ← opendir sys session_path
    if_null dir (do say " No iSCSI Connections found for %s \n"; pure d)
        (λ entries. (do
          closedir
          fill_addresses session (count_connections session_path entries d)))
