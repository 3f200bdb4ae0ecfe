-- ===== src/Iscsi/Attributes.antt =====
-- scsi_iscsi_utils.c: the attributes of a session and of a connection. `none` is undefined behaviour.
use scsi_cli.Prelude.{Option, Text, some, text, ◌++◌}
use scsi_cli.Attribute.{convert_int, entry_path, print_text, read_text, ◌>>=◌}
use scsi_cli.Clib.Printf.{sprintf_into, truncated}
use scsi_cli.Device.Iscsi.{IscsiConnection, IscsiSession}
use scsi_cli.World.{System}

-- session_path of get_iscsi_session_info
abbrev pub session_class_path : Text → Text
session_class_path name = truncated 1024 (text "/sys/class/iscsi_session/" ++ name)

-- get_iscsi_session_info: the stores into *sess
unfoldable pub collect_session : System → Text → IscsiSession → Option IscsiSession
collect_session sys name sess = do
  let path = session_class_path name
  initiatorname ← read_text sys 256 (entry_path 2048 path (text "initiatorname"))
  targetname ← read_text sys 256 (entry_path 2048 path (text "targetname"))
  target_id ← convert_int sys (entry_path 2048 path (text "target_id"))
  state ← read_text sys 256 (entry_path 2048 path (text "state"))
  target_state ← read_text sys 256 (entry_path 2048 path (text "target_state"))
  abort_tmo ← convert_int sys (entry_path 2048 path (text "abort_tmo"))
  creator ← convert_int sys (entry_path 2048 path (text "creator"))
  data_pdu_in_order ← convert_int sys (entry_path 2048 path (text "data_pdu_in_order"))
  data_seq_in_order ← convert_int sys (entry_path 2048 path (text "data_seq_in_order"))
  err_level ← convert_int sys (entry_path 2048 path (text "erl"))
  fast_abort ← convert_int sys (entry_path 2048 path (text "fast_abort"))
  first_burst_len ← convert_int sys (entry_path 2048 path (text "first_burst_len"))
  ifacename ← read_text sys 256 (entry_path 2048 path (text "ifacename"))
  immediate_data ← convert_int sys (entry_path 2048 path (text "immediate_data"))
  initial_r2t ← convert_int sys (entry_path 2048 path (text "initial_r2t"))
  lu_reset_tmo ← convert_int sys (entry_path 2048 path (text "lu_reset_tmo"))
  max_burst_len ← convert_int sys (entry_path 2048 path (text "max_burst_len"))
  max_outstanding_r2t ← convert_int sys (entry_path 2048 path (text "max_outstanding_r2t"))
  recovery_tmo ← convert_int sys (entry_path 2048 path (text "recovery_tmo"))
  some (record sess {
    initiatorname = some initiatorname;
    targetname = some targetname;
    target_id = target_id;
    state = some state;
    target_state = some target_state;
    abort_tmo = abort_tmo;
    creator = creator;
    data_pdu_in_order = data_pdu_in_order;
    data_seq_in_order = data_seq_in_order;
    err_level = err_level;
    fast_abort = fast_abort;
    first_burst_len = first_burst_len;
    ifacename = some ifacename;
    immediate_data = immediate_data;
    initial_r2t = initial_r2t;
    lu_reset_tmo = lu_reset_tmo;
    max_burst_len = max_burst_len;
    max_outstanding_r2t = max_outstanding_r2t;
    recovery_tmo = recovery_tmo;
  })

-- get_iscsi_connection_info: the stores into *conn. The name is short enough for the buffers of 1024
-- and 2048 bytes, as the names of directory entries are.
unfoldable pub collect_connection : System → Text → IscsiConnection → Option IscsiConnection
collect_connection sys name conn = do
  path ← sprintf_into 1024 (text "/sys/class/iscsi_connection/" ++ name)
  address ← print_text sys 256 (path ++ text "/address")
  max_recv_dlength ← convert_int sys (path ++ text "/max_recv_dlength")
  max_xmit_dlength ← convert_int sys (path ++ text "/max_xmit_dlength")
  data_digest ← convert_int sys (path ++ text "/data_digest")
  exp_statsn ← convert_int sys (path ++ text "/exp_statsn")
  header_digest ← convert_int sys (path ++ text "/header_digest")
  persistent_address ← print_text sys 256 (path ++ text "/persistent_address")
  persistent_port ← convert_int sys (path ++ text "/persistent_port")
  ping_tmo ← convert_int sys (path ++ text "/ping_tmo")
  port ← convert_int sys (path ++ text "/port")
  recv_tmo ← convert_int sys (path ++ text "/recv_tmo")
  state ← print_text sys 256 (path ++ text "/state")
  some (record conn {
    address = some address;
    max_recv_dlength = max_recv_dlength;
    max_xmit_dlength = max_xmit_dlength;
    data_digest = data_digest;
    exp_statsn = exp_statsn;
    header_digest = header_digest;
    persistent_address = some persistent_address;
    persistent_port = persistent_port;
    ping_tmo = ping_tmo;
    port = port;
    recv_tmo = recv_tmo;
    state = some state;
  })
