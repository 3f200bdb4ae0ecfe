-- ===== src/Fibre/Ports.antt =====
-- scsi_fcp_utils.c: remote ports, and the commands that list and show Fibre Channel hosts.
use scsi_cli.Prelude.{
  Text, enodev, if_null, if◌then◌else◌, is_positive, none, pos, some, text, ℕ, ℤ, ◌+◌,
}
use scsi_cli.Attribute.{entry_path, read_text}
use scsi_cli.Clib.Compare.{strncmp_eq}
use scsi_cli.Device.{fc_dev, fc_dev_header, fc_info, fc_rport_header, fc_rport_info}
use scsi_cli.Device.Fibre.{FcDeviceInfo, FcRportInfo}
use scsi_cli.Fibre.Info.{get_fc_info}
use scsi_cli.Fibre.Port.{get_adapter_details, get_driver_info, get_symbolic_name}
use scsi_cli.Loop.{Flow, after, for_each_dir, for_each_dir_with, give, next}
use scsi_cli.Sysfs.{alloc_fc_dev, put_fc_dev}
use scsi_cli.World.{
  Dirent, M, System, closedir, emit, free, label, lift, malloc, opendir, pure, say, shown,
  undefined, ◌>>=◌, ◌>>◌,
}

-- What malloc gives for a remote port: the fields that get_rport_info does not store are not
-- specified, and nothing reads them.
abbrev pub fresh_rport : Text → FcRportInfo
fresh_rport name = record {
  rport_path = none;
  rport_name = some name;
  node_name = none;
  port_name = none;
  port_id = none;
  roles = none;
  maxframe_size = none;
  supported_classes = none;
  dev_loss_tmo = pos 0;
  port_state = none;
}

module _ (sys : System) where
  -- get_rport_info
  unfoldable pub get_rport_info : FcRportInfo → M FcRportInfo
  unfolding read_text
  get_rport_info rport = do
    name ← lift rport.rport_name
    let rport_path = entry_path 64 (text "/sys/class/fc_remote_ports") name
    node_name ← lift (read_text sys 32 (entry_path 256 rport_path (text "node_name")))
    port_id ← lift (read_text sys 32 (entry_path 256 rport_path (text "port_id")))
    port_name ← lift (read_text sys 32 (entry_path 256 rport_path (text "port_name")))
    port_state ← lift (read_text sys 32 (entry_path 256 rport_path (text "port_state")))
    roles ← lift (read_text sys 32 (entry_path 256 rport_path (text "roles")))
    pure (record rport {
      node_name = some node_name;
      port_id = some port_id;
      port_name = some port_name;
      port_state = some port_state;
      roles = some roles;
    })

  -- one round of the loop of list_rport_adapters: the structure of a remote port is not freed
  unfoldable pub rport_round : Dirent → M Flow
  rport_round e = do
    got ← malloc
    if strncmp_eq e.d_name (text "rport") 5
        then (if got
            then (do
              rport ← get_rport_info (fresh_rport e.d_name)
              emit (shown (fc_rport_info rport))
              pure next)
            else undefined)
        else if got
        then (do free; pure next)
        else pure next

  -- list_rport_adapters, on a structure that is not NULL
  unfoldable pub list_rport_adapters : FcDeviceInfo → M ℤ
  list_rport_adapters fc = do
    sys_path ← lift fc.sys_dev_path
    dir ← opendir sys (entry_path 64 sys_path (text "device"))
    if_null dir (do say "No Remote Ports found for this adapter"; pure (pos 0))
        (λ entries. (do
          emit (shown fc_rport_header)
          flow ← for_each_dir entries rport_round
          after flow (closedir >> pure (pos 0))))

  -- the fields that list_fc_adapters and show_fc_port_details store first
  abbrev pub fc_host : Text → FcDeviceInfo → FcDeviceInfo
  fc_host name fc = record fc {
    host_name = some name;
    sys_dev_path = some (entry_path 64 (text "/sys/class/fc_host") name);
  }

  -- one round of the loop of list_fc_adapters, with the counter
  unfoldable pub fc_round : ℕ → Dirent → M (Flow × ℕ)
  unfolding alloc_fc_dev put_fc_dev get_symbolic_name get_driver_info get_fc_info
  fc_round count e = do
    got ← alloc_fc_dev
    if_null got (pure (give enodev, count)) (λ fresh. (do
      symbolic ← get_symbolic_name sys (fc_host e.d_name fresh)
      driven ← get_driver_info sys symbolic
      (_, full) ← get_fc_info sys driven
      emit (shown (fc_dev full))
      put_fc_dev
      pure (next, count + 1)))

  -- list_fc_adapters: the number of hosts
  unfoldable pub list_fc_adapters : M ℤ
  unfolding opendir closedir for_each_dir_with fc_round
  list_fc_adapters = do
    dir ← opendir sys (text "/sys/class/fc_host")
    if_null dir (pure enodev) (λ entries. (do
      emit (label (text "Fabric"))
      emit (shown fc_dev_header)
      (flow, count) ← for_each_dir_with entries 0 fc_round
      after flow (closedir >> pure (pos count))))

  -- show_fc_port_details
  unfoldable pub show_fc_port_details : Text → FcDeviceInfo → M ℤ
  unfolding get_symbolic_name get_driver_info get_adapter_details get_fc_info list_rport_adapters
  show_fc_port_details argv3 fc = do
    symbolic ← get_symbolic_name sys (fc_host argv3 fc)
    driven ← get_driver_info sys symbolic
    (_, port) ← get_adapter_details sys driven
    (_, full) ← get_fc_info sys port
    emit (shown (fc_info full))
    if is_positive full.no_rports
        then (do _ ← list_rport_adapters full; pure (pos 0))
        else pure (pos 0)
