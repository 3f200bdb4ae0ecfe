-- ===== src/Device/Fibre.antt =====
-- scsi_fcp.h: what is collected about a Fibre Channel host and its remote ports. The list links and
-- the pointers `remote_port` and `next` are left out, since nothing uses them.
use scsi_cli.Prelude.{Option, Text, [], none, pos, ℕ, ℤ}

pub record FcHostStatistics : Type 0 where
  pub seconds_since_last_reset : ℕ
  pub tx_frames : ℕ
  pub tx_words : ℕ
  pub rx_frames : ℕ
  pub rx_words : ℕ
  pub invalid_tx_word_count : ℕ
  pub lip_count : ℕ
  pub nos_count : ℕ
  pub error_frames : ℕ
  pub dumped_frames : ℕ
  pub link_failure_count : ℕ
  pub loss_of_sync_count : ℕ
  pub loss_of_signal_count : ℕ
  pub prim_seq_protocol_err_count : ℕ
  pub invalid_crc_count : ℕ
  pub fcp_input_requests : ℕ
  pub fcp_output_requests : ℕ
  pub fcp_control_requests : ℕ
  pub fcp_input_megabytes : ℕ
  pub fcp_output_megabytes : ℕ
  pub fcp_packet_alloc_failures : ℕ
  pub fcp_packet_aborts : ℕ
  pub fcp_frame_alloc_failures : ℕ
  pub fc_no_free_exch : ℕ
  pub fc_no_free_exch_xid : ℕ
  pub fc_xid_not_found : ℕ
  pub fc_xid_busy : ℕ
  pub fc_seq_not_found : ℕ
  pub fc_non_bls_resp : ℕ
  pub cn_sig_warn : ℕ
  pub cn_sig_alarm : ℕ
  pub fpin_cn : ℕ
  pub fpin_cn_credit_stall : ℕ
  pub fpin_cn_device_specific : ℕ
  pub fpin_cn_lost_credit : ℕ
  pub fpin_cn_oversubscription : ℕ
  pub fpin_li : ℕ
  pub fpin_li_device_specific : ℕ
  pub fpin_li_failure_unknown : ℕ
  pub fpin_li_invalid_crc_count : ℕ
  pub fpin_li_invalid_tx_word_count : ℕ
  pub fpin_li_link_failure_count : ℕ
  pub fpin_li_loss_of_signals_count : ℕ
  pub fpin_li_loss_of_sync_count : ℕ
  pub fpin_li_prim_seq_err_count : ℕ
  pub fpin_dn : ℕ
  pub fpin_dn_device_specific : ℕ
  pub fpin_dn_timeout : ℕ
  pub fpin_dn_unable_to_route : ℕ
  pub fpin_dn_unknown : ℕ

-- All bytes 0.
abbrev pub zero_statistics : FcHostStatistics
zero_statistics = record {
  seconds_since_last_reset = 0;
  tx_frames = 0;
  tx_words = 0;
  rx_frames = 0;
  rx_words = 0;
  invalid_tx_word_count = 0;
  lip_count = 0;
  nos_count = 0;
  error_frames = 0;
  dumped_frames = 0;
  link_failure_count = 0;
  loss_of_sync_count = 0;
  loss_of_signal_count = 0;
  prim_seq_protocol_err_count = 0;
  invalid_crc_count = 0;
  fcp_input_requests = 0;
  fcp_output_requests = 0;
  fcp_control_requests = 0;
  fcp_input_megabytes = 0;
  fcp_output_megabytes = 0;
  fcp_packet_alloc_failures = 0;
  fcp_packet_aborts = 0;
  fcp_frame_alloc_failures = 0;
  fc_no_free_exch = 0;
  fc_no_free_exch_xid = 0;
  fc_xid_not_found = 0;
  fc_xid_busy = 0;
  fc_seq_not_found = 0;
  fc_non_bls_resp = 0;
  cn_sig_warn = 0;
  cn_sig_alarm = 0;
  fpin_cn = 0;
  fpin_cn_credit_stall = 0;
  fpin_cn_device_specific = 0;
  fpin_cn_lost_credit = 0;
  fpin_cn_oversubscription = 0;
  fpin_li = 0;
  fpin_li_device_specific = 0;
  fpin_li_failure_unknown = 0;
  fpin_li_invalid_crc_count = 0;
  fpin_li_invalid_tx_word_count = 0;
  fpin_li_link_failure_count = 0;
  fpin_li_loss_of_signals_count = 0;
  fpin_li_loss_of_sync_count = 0;
  fpin_li_prim_seq_err_count = 0;
  fpin_dn = 0;
  fpin_dn_device_specific = 0;
  fpin_dn_timeout = 0;
  fpin_dn_unable_to_route = 0;
  fpin_dn_unknown = 0;
}

pub record FcRportInfo : Type 0 where
  pub rport_path : Option Text
  pub rport_name : Option Text
  pub node_name : Option Text
  pub port_name : Option Text
  pub port_id : Option Text
  pub roles : Option Text
  pub maxframe_size : Option Text
  pub supported_classes : Option Text
  pub dev_loss_tmo : ℤ
  pub port_state : Option Text

pub record FcDeviceInfo : Type 0 where
  pub sys_dev_path : Option Text
  pub pci_bus_id : Text
  pub host_name : Option Text
  pub model_desc : Option Text
  pub product_name : Option Text
  pub port_state : Option Text
  pub port_speed : Option Text
  pub port_type : Option Text
  pub port_id : Option Text
  pub port_name : Option Text
  pub node_name : Option Text
  pub driver_name : Option Text
  pub fw_version : Option Text
  pub drv_version : Option Text
  pub supported_class : Option Text
  pub supported_speed : Option Text
  pub link_state : Option Text
  pub active_mode : Option Text
  pub serial_num : Option Text
  pub fabric_name : Option Text
  pub symbolic_name : Option Text
  pub dev_loss_tmo : ℤ
  pub max_npiv_vports : ℤ
  pub npiv_vports_inuse : ℤ
  pub no_rports : ℤ
  pub stats : FcHostStatistics

-- All bytes 0.
abbrev pub zero_fc_device : FcDeviceInfo
zero_fc_device = record {
  sys_dev_path = none;
  pci_bus_id = [];
  host_name = none;
  model_desc = none;
  product_name = none;
  port_state = none;
  port_speed = none;
  port_type = none;
  port_id = none;
  port_name = none;
  node_name = none;
  driver_name = none;
  fw_version = none;
  drv_version = none;
  supported_class = none;
  supported_speed = none;
  link_state = none;
  active_mode = none;
  serial_num = none;
  fabric_name = none;
  symbolic_name = none;
  dev_loss_tmo = pos 0;
  max_npiv_vports = pos 0;
  npiv_vports_inuse = pos 0;
  no_rports = pos 0;
  stats = zero_statistics;
}
