-- ===== src/Fibre/Port.antt =====
-- scsi_fcp_utils.c: get_adapter_details, get_symbolic_name, get_driver_info.
use scsi_cli.Prelude.{
  List, Option, Text, [], if_null, if◌then◌else◌, none, pos, some, text, to_int, ℕ, ℤ, ◌&&◌, ◌++◌,
  ◌+◌, ◌||◌, ◌∷◌,
}
use scsi_cli.Attribute.{convert_int, entry_path, print_text, read_text}
use scsi_cli.Clib.Compare.{strncmp_eq}
use scsi_cli.Clib.Number.{strtoull}
use scsi_cli.Clib.Printf.{sprintf_into}
use scsi_cli.Clib.Stdio.{fgets}
use scsi_cli.Device.Fibre.{FcDeviceInfo}
use scsi_cli.Loop.{is_dot}
use scsi_cli.Print.{remove_newline, remove_space}
use scsi_cli.World.{Dirent, M, System, closedir, lift, opendir, pure, say, undefined, ◌>>=◌, ◌>>◌}

-- The loop of get_adapter_details: rport_cnt, and the field no_rports, which is stored only at
-- entries that are no remote ports.
unfoldable pub count_rports : List Dirent → ℕ → ℤ → ℤ
count_rports [] rport_cnt no_rports = no_rports
count_rports (e ∷ es) rport_cnt no_rports =
    let skipped = count_rports es rport_cnt no_rports in
    let counted = count_rports es (rport_cnt + 1) no_rports in
    let stored = count_rports es rport_cnt (pos rport_cnt) in
    if is_dot e.d_name
    then skipped
    else if strncmp_eq e.d_name (text "rport") 5
    then counted
    else stored

-- The loop of get_driver_info: the first directory of a known driver.
unfoldable pub first_driver : List Dirent → Option Text
first_driver [] = none
first_driver (e ∷ es) =
    let rest = first_driver es in
    if e.is_directory
      && (strncmp_eq e.d_name (text "qla2xxx") 7 || strncmp_eq e.d_name (text "lpfc") 4)
    then some e.d_name
    else rest

module _ (sys : System) where
  -- get_symbolic_name
  unfoldable pub get_symbolic_name : FcDeviceInfo → M FcDeviceInfo
  unfolding fgets remove_newline
  get_symbolic_name fc =
      if_null fc.host_name (do say "Please provide valid FC Host Name \n"; pure fc)
        (λ host. (do
          sys_path ← lift fc.sys_dev_path
          if_null (sys.file (entry_path 64 sys_path (text "symbolic_name")))
              (do say "Can not open %s\n"; pure fc)
              (λ contents.
                if_null (fgets 256 contents) (pure fc)
                  (λ p. pure (record fc { symbolic_name = some (remove_newline p) })))))

  -- get_driver_info. Without the directory, readdir is called on a null pointer.
  unfoldable pub get_driver_info : FcDeviceInfo → M FcDeviceInfo
  unfolding opendir closedir first_driver
  get_driver_info fc = do
    dir ← opendir sys (text "/sys/bus/pci/drivers")
    if_null dir (undefined) (λ entries. (do
      closedir
      if_null (first_driver entries) (pure fc)
          (λ name. pure (record fc { driver_name = some name }))))

  -- sprintf(path, "%s/<name>", sys_dev_path), sprintf(temp_val, open_sysfs_stats_file(path))
  unfoldable pub port_text : Text → Text → Option Text
  unfolding sprintf_into print_text
  port_text sys_path name =
      if_null (sprintf_into 1024 (sys_path ++ (text "/" ++ name))) none
        (λ path. print_text sys 128 path)

  unfoldable pub port_number : Text → Text → Option ℤ
  unfolding sprintf_into convert_int
  port_number sys_path name =
      if_null (sprintf_into 1024 (sys_path ++ (text "/" ++ name))) none
        (λ path. convert_int sys path)

  -- the attributes that get_adapter_details stores
  unfoldable pub collect_port : FcDeviceInfo → M FcDeviceInfo
  unfolding port_text port_number read_text remove_space
  collect_port fc = do
    sys_path ← lift fc.sys_dev_path
    port_id ← lift (read_text sys 128 (entry_path 1024 sys_path (text "port_id")))
    port_id_moved ← lift (remove_space port_id)
    port_name ← lift (port_text sys_path (text "port_name"))
    port_name_moved ← lift (remove_space port_name)
    port_state ← lift (port_text sys_path (text "port_state"))
    port_state_moved ← lift (remove_space port_state)
    port_type ← lift (port_text sys_path (text "port_type"))
    node_name ← lift (port_text sys_path (text "node_name"))
    node_name_moved ← lift (remove_space node_name)
    max_npiv_vports ← lift (port_number sys_path (text "max_npiv_vports"))
    inuse ← lift (port_text sys_path (text "npiv_vports_inuse"))
    fabric_name ← lift (port_text sys_path (text "fabric_name"))
    pure (record fc {
      port_id = some port_id_moved;
      port_name = some port_name_moved;
      port_state = some port_state_moved;
      port_type = some port_type;
      node_name = some node_name_moved;
      max_npiv_vports = max_npiv_vports;
      npiv_vports_inuse = to_int (strtoull inuse);
      fabric_name = some fabric_name;
    })

  -- get_adapter_details returns 0 where it returns.
  unfoldable pub get_adapter_details : FcDeviceInfo → M (ℤ × FcDeviceInfo)
  unfolding collect_port opendir closedir count_rports
  get_adapter_details fc = do
    port ← collect_port fc
    sys_path ← lift fc.sys_dev_path
    dir ← opendir sys (sys_path ++ text "/device")
    if_null dir
        ((do
          say "No Remote port for this FC Adapter found"
          pure (pos 0, record port { no_rports = pos 0 })))
        (λ entries. (do
          closedir
          pure (pos 0, record port { no_rports = count_rports entries 0 port.no_rports })))
