-- ===== src/Fibre/Stats.antt =====
-- scsi_fcp_utils.c: get_fc_dev_stats, the attributes below /sys/class/fc_host/<host>/statistics.
use scsi_cli.Prelude.{Option, Text, pos, some, text, ℤ, ◌++◌}
use scsi_cli.Attribute.{entry_path, read_long, ◌>>=◌}
use scsi_cli.Clib.Printf.{truncated}
use scsi_cli.Device.Fibre.{FcDeviceInfo, FcHostStatistics}
use scsi_cli.World.{System}

-- scsi_path
abbrev pub statistics_path : Text → Text
statistics_path host = truncated 256 (text "/sys/class/fc_host/" ++ (host ++ text "/statistics"))

-- the stores into fc_dev->stats
unfoldable pub collect_statistics : System → Text → FcHostStatistics → Option FcHostStatistics
collect_statistics sys scsi_path s = do
  lip_count ← read_long sys 64 (entry_path 1024 scsi_path (text "lip_count"))
  tx_frames ← read_long sys 64 (entry_path 1024 scsi_path (text "tx_frames"))
  tx_words ← read_long sys 64 (entry_path 1024 scsi_path (text "tx_words"))
  rx_frames ← read_long sys 64 (entry_path 1024 scsi_path (text "rx_frames"))
  rx_words ← read_long sys 64 (entry_path 1024 scsi_path (text "rx_words"))
  cn_sig_alarm ← read_long sys 64 (entry_path 1024 scsi_path (text "cn_sig_alarm"))
  cn_sig_warn ← read_long sys 64 (entry_path 1024 scsi_path (text "cn_sig_warn"))
  error_frames ← read_long sys 64 (entry_path 1024 scsi_path (text "error_frames"))
  dumped_frames ← read_long sys 64 (entry_path 1024 scsi_path (text "dumped_frames"))
  invalid_crc_count ← read_long sys 64 (entry_path 1024 scsi_path (text "invalid_crc_count"))
  invalid_tx_word_count ←
      read_long sys 64 (entry_path 1024 scsi_path (text "invalid_tx_word_count"))
  link_failure_count ← read_long sys 64 (entry_path 1024 scsi_path (text "link_failure_count"))
  loss_of_signal_count ← read_long sys 64 (entry_path 1024 scsi_path (text "loss_of_signal_count"))
  loss_of_sync_count ← read_long sys 64 (entry_path 1024 scsi_path (text "loss_of_sync_count"))
  nos_count ← read_long sys 64 (entry_path 1024 scsi_path (text "nos_count"))
  fpin_cn ← read_long sys 64 (entry_path 1024 scsi_path (text "fpin_cn"))
  fpin_cn_credit_stall ← read_long sys 64 (entry_path 1024 scsi_path (text "fpin_cn_credit_stall"))
  fpin_cn_device_specific ←
      read_long sys 64 (entry_path 1024 scsi_path (text "fpin_cn_device_specific"))
  fpin_cn_lost_credit ← read_long sys 64 (entry_path 1024 scsi_path (text "fpin_cn_lost_credit"))
  fpin_cn_oversubscription ←
      read_long sys 64 (entry_path 1024 scsi_path (text "fpin_cn_oversubscription"))
  fpin_li ← read_long sys 64 (entry_path 1024 scsi_path (text "fpin_li"))
  fpin_li_device_specific ←
      read_long sys 64 (entry_path 1024 scsi_path (text "fpin_li_device_specific"))
  fpin_li_failure_unknown ←
      read_long sys 64 (entry_path 1024 scsi_path (text "fpin_li_failure_unknown"))
  fpin_li_invalid_crc_count ←
      read_long sys 64 (entry_path 1024 scsi_path (text "fpin_li_invalid_crc_count"))
  fpin_li_invalid_tx_word_count ←
      read_long sys 64 (entry_path 1024 scsi_path (text "fpin_li_invalid_tx_word_count"))
  fpin_li_link_failure_count ←
      read_long sys 64 (entry_path 1024 scsi_path (text "fpin_li_link_failure_count"))
  fpin_li_loss_of_signals_count ←
      read_long sys 64 (entry_path 1024 scsi_path (text "fpin_li_loss_of_signals_count"))
  fpin_li_loss_of_sync_count ←
      read_long sys 64 (entry_path 1024 scsi_path (text "fpin_li_loss_of_sync_count"))
  fpin_li_prim_seq_err_count ←
      read_long sys 64 (entry_path 1024 scsi_path (text "fpin_li_prim_seq_err_count"))
  fpin_dn ← read_long sys 64 (entry_path 1024 scsi_path (text "fpin_dn"))
  fpin_dn_device_specific ←
      read_long sys 64 (entry_path 1024 scsi_path (text "fpin_dn_device_specific"))
  fpin_dn_timeout ← read_long sys 64 (entry_path 1024 scsi_path (text "fpin_dn_timeout"))
  fpin_dn_unable_to_route ←
      read_long sys 64 (entry_path 1024 scsi_path (text "fpin_dn_unable_to_route"))
  fpin_dn_unknown ← read_long sys 64 (entry_path 1024 scsi_path (text "fpin_dn_unknown"))
  some (record s {
    lip_count = lip_count;
    tx_frames = tx_frames;
    tx_words = tx_words;
    rx_frames = rx_frames;
    rx_words = rx_words;
    cn_sig_alarm = cn_sig_alarm;
    cn_sig_warn = cn_sig_warn;
    error_frames = error_frames;
    dumped_frames = dumped_frames;
    invalid_crc_count = invalid_crc_count;
    invalid_tx_word_count = invalid_tx_word_count;
    link_failure_count = link_failure_count;
    loss_of_signal_count = loss_of_signal_count;
    loss_of_sync_count = loss_of_sync_count;
    nos_count = nos_count;
    fpin_cn = fpin_cn;
    fpin_cn_credit_stall = fpin_cn_credit_stall;
    fpin_cn_device_specific = fpin_cn_device_specific;
    fpin_cn_lost_credit = fpin_cn_lost_credit;
    fpin_cn_oversubscription = fpin_cn_oversubscription;
    fpin_li = fpin_li;
    fpin_li_device_specific = fpin_li_device_specific;
    fpin_li_failure_unknown = fpin_li_failure_unknown;
    fpin_li_invalid_crc_count = fpin_li_invalid_crc_count;
    fpin_li_invalid_tx_word_count = fpin_li_invalid_tx_word_count;
    fpin_li_link_failure_count = fpin_li_link_failure_count;
    fpin_li_loss_of_signals_count = fpin_li_loss_of_signals_count;
    fpin_li_loss_of_sync_count = fpin_li_loss_of_sync_count;
    fpin_li_prim_seq_err_count = fpin_li_prim_seq_err_count;
    fpin_dn = fpin_dn;
    fpin_dn_device_specific = fpin_dn_device_specific;
    fpin_dn_timeout = fpin_dn_timeout;
    fpin_dn_unable_to_route = fpin_dn_unable_to_route;
    fpin_dn_unknown = fpin_dn_unknown;
  })

-- get_fc_dev_stats returns 0 where it returns.
unfoldable pub get_fc_dev_stats : System → Text → FcDeviceInfo → Option (ℤ × FcDeviceInfo)
unfolding collect_statistics
get_fc_dev_stats sys device_name fc = do
  stats ← collect_statistics sys (statistics_path device_name) fc.stats
  some (pos 0, record fc { host_name = some device_name; stats = stats })
