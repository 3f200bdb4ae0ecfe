-- ===== src/Device/Iscsi.antt =====
-- scsi_iscsi.h: what is collected about an iSCSI host. The pointers of `iscsi_dev_info` to the host,
-- the session and the connection are passed beside it.
use scsi_cli.Prelude.{Option, Text, none, pos, ℤ}

pub record IscsiSession : Type 0 where
  pub abort_tmo : ℤ
  pub creator : ℤ
  pub data_pdu_in_order : ℤ
  pub data_seq_in_order : ℤ
  pub err_level : ℤ
  pub fast_abort : ℤ
  pub first_burst_len : ℤ
  pub ifacename : Option Text
  pub immediate_data : ℤ
  pub initial_r2t : ℤ
  pub initiatorname : Option Text
  pub lu_reset_tmo : ℤ
  pub max_burst_len : ℤ
  pub max_outstanding_r2t : ℤ
  pub recovery_tmo : ℤ
  pub target_id : ℤ
  pub targetname : Option Text
  pub target_state : Option Text
  pub state : Option Text
  pub tgt_reset_tmo : ℤ
  pub tpgt : ℤ
  pub scsi_channel : ℤ
  pub scsi_bus : ℤ
  pub scsi_id : ℤ
  pub scsi_lun : ℤ
  pub lun_count : ℤ

pub record IscsiConnection : Type 0 where
  pub address : Option Text
  pub data_digest : ℤ
  pub exp_statsn : ℤ
  pub header_digest : ℤ
  pub local_port : ℤ
  pub max_recv_dlength : ℤ
  pub max_xmit_dlength : ℤ
  pub persistent_address : Option Text
  pub persistent_port : ℤ
  pub ping_tmo : ℤ
  pub port : ℤ
  pub recv_tmo : ℤ
  pub state : Option Text

pub record IscsiHost : Type 0 where
  pub hwaddress : Option Text
  pub ipaddress : Option Text
  pub initiatorname : Option Text
  pub netdev : Option Text

pub record IscsiDevInfo : Type 0 where
  pub host_name : Option Text
  pub session_name : Option Text
  pub connection_name : Option Text
  pub transport_name : Option Text
  pub target_name : Option Text
  pub conn_address : Option Text
  pub conn_port : Option Text
  pub sys_dev_path : Option Text
  pub connection_path : Option Text
  pub session_path : Option Text
  pub session_disk_path : Option Text
  pub session_count : ℤ
  pub connection_count : ℤ

-- All bytes 0.
abbrev pub zero_iscsi_device : IscsiDevInfo
zero_iscsi_device = record {
  host_name = none;
  session_name = none;
  connection_name = none;
  transport_name = none;
  target_name = none;
  conn_address = none;
  conn_port = none;
  sys_dev_path = none;
  connection_path = none;
  session_path = none;
  session_disk_path = none;
  session_count = pos 0;
  connection_count = pos 0;
}
