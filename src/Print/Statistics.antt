-- ===== src/Print/Statistics.antt =====
-- scsi_print.c: the statistics of a disk and of a Fibre Channel host.
use scsi_cli.Prelude.{Option, Text, [], some, ◌∷◌}
use scsi_cli.Clib.Format.{all_of, arg_s, arg_u, printf}
use scsi_cli.Device.Fibre.{FcDeviceInfo}
use scsi_cli.Device.Queue.{DiskStats}
use scsi_cli.Print.{dash}

-- print_disk_stats
unfoldable pub print_disk_stats : DiskStats → Text → Option Text
print_disk_stats stats_p disk_name = all_of (
    printf "\n %-.48s\n" (arg_s (some dash) ∷ [])
    ∷ printf "\tIO Statistics for %s" (arg_s (some disk_name) ∷ [])
    ∷ printf "\n %-.48s\n" (arg_s (some dash) ∷ [])
    ∷ printf "\n" []
    ∷ printf " Read IO\t: %llu \n" (arg_u stats_p.ios.0 ∷ [])
    ∷ printf " Write IO\t: %llu \n" (arg_u stats_p.ios.1 ∷ [])
    ∷ printf " Merged Read \t: %llu \n" (arg_u stats_p.merges.0 ∷ [])
    ∷ printf " Merged Write\t: %llu \n" (arg_u stats_p.merges.1 ∷ [])
    ∷ printf " Read Sectors\t: %llu \n" (arg_u stats_p.sectors.0 ∷ [])
    ∷ printf " Write Sectors\t: %llu \n" (arg_u stats_p.sectors.1 ∷ [])
    ∷ printf " Read IO ticks\t: %llu \n" (arg_u stats_p.ticks.0 ∷ [])
    ∷ printf " Write IO ticks\t: %llu \n" (arg_u stats_p.ticks.1 ∷ [])
    ∷ printf " Total IO tikcs\t: %llu \n" (arg_u stats_p.io_ticks ∷ [])
    ∷ printf " Time spent in IO queue  : %llu \n" (arg_u stats_p.time_in_queue ∷ [])
    ∷ printf " Time spent/IO\t\t : %llu \n" (arg_u stats_p.msec ∷ [])
    ∷ printf "\n" []
    ∷ [])

-- print_fc_port_stats
unfoldable pub print_fc_port_stats : FcDeviceInfo → Option Text
print_fc_port_stats fc = all_of (
    printf "\n%-.48s\n" (arg_s (some dash) ∷ [])
    ∷ printf "\tFCP Statistics: %s" (arg_s fc.host_name ∷ [])
    ∷ printf "\n%-.48s\n" (arg_s (some dash) ∷ [])
    ∷ printf "\n" []
    ∷ printf " TX Frames\t: %#llx \n" (arg_u fc.stats.tx_frames ∷ [])
    ∷ printf " TX Words\t: %#llx \n" (arg_u fc.stats.tx_words ∷ [])
    ∷ printf " RX Frames\t: %#llx \n" (arg_u fc.stats.rx_frames ∷ [])
    ∷ printf " RX Words\t: %#llx \n" (arg_u fc.stats.rx_words ∷ [])
    ∷ printf " LIP Count\t: %#llx \n" (arg_u fc.stats.lip_count ∷ [])
    ∷ printf " NOS Count\t: %#llx \n" (arg_u fc.stats.nos_count ∷ [])
    ∷ printf " Error Frames\t: %#llx \n" (arg_u fc.stats.error_frames ∷ [])
    ∷ printf " Dumped Frames\t: %#llx \n" (arg_u fc.stats.dumped_frames ∷ [])
    ∷ printf " Invald TX Word\t: %#llx \n" (arg_u fc.stats.invalid_tx_word_count ∷ [])
    ∷ printf " Loss of Sync\t: %#llx \n" (arg_u fc.stats.loss_of_sync_count ∷ [])
    ∷ printf " Loss of Signal\t: %#llx \n" (arg_u fc.stats.loss_of_signal_count ∷ [])
    ∷ printf " Link Failure\t: %#llx \n" (arg_u fc.stats.link_failure_count ∷ [])
    ∷ printf " Invalid CRC\t: %#llx \n" (arg_u fc.stats.invalid_crc_count ∷ [])
    ∷ printf "\n ----- FPIN Diagnostic Statistics ----- \n" []
    ∷ printf "\n" []
    ∷ printf " fpin_dn\t\t\t: %#llx \n" (arg_u fc.stats.fpin_dn ∷ [])
    ∷ printf " fpin_dn_device_specific\t: %#llx \n" (arg_u fc.stats.fpin_dn_device_specific ∷ [])
    ∷ printf " fpin_dn_timeout\t\t: %#llx \n" (arg_u fc.stats.fpin_dn_timeout ∷ [])
    ∷ printf " fpin_dn_unable_to_route\t: %#llx \n" (arg_u fc.stats.fpin_dn_unable_to_route ∷ [])
    ∷ printf " fpin_dn_unknown\t\t: %#llx \n" (arg_u fc.stats.fpin_dn_unknown ∷ [])
    ∷ printf "\n ----- FPIN Link Integrity Statistics ----- \n" []
    ∷ printf "\n" []
    ∷ printf " fpin_li\t\t\t: %#llx\n" (arg_u fc.stats.fpin_li ∷ [])
    ∷ printf " fpin_li_device_specific\t: %#llx \n" (arg_u fc.stats.fpin_li_device_specific ∷ [])
    ∷ printf " fpin_li_failure_unknown\t: %#llx \n" (arg_u fc.stats.fpin_li_failure_unknown ∷ [])
    ∷ printf " fpin_li_invalid_crc_count\t: %#llx \n"
        (arg_u fc.stats.fpin_li_invalid_crc_count ∷ [])
    ∷ printf " fpin_li_invalid_tx_word_count\t: %#llx \n"
        (arg_u fc.stats.fpin_li_invalid_tx_word_count ∷ [])
    ∷ printf " fpin_li_link_failure_count\t: %#llx \n"
        (arg_u fc.stats.fpin_li_link_failure_count ∷ [])
    ∷ printf " fpin_li_loss_of_signals_count\t: %#llx \n"
        (arg_u fc.stats.fpin_li_loss_of_signals_count ∷ [])
    ∷ printf " fpin_li_loss_of_sync_count\t: %#llx \n"
        (arg_u fc.stats.fpin_li_loss_of_sync_count ∷ [])
    ∷ printf " fpin_li_prim_seq_err_count\t: %#llx \n"
        (arg_u fc.stats.fpin_li_prim_seq_err_count ∷ [])
    ∷ printf "\n ----- FPIN Congestion Statistics ----- \n" []
    ∷ printf "\n" []
    ∷ printf " cn_sig_alarm\t\t\t: %#llx\n" (arg_u fc.stats.cn_sig_alarm ∷ [])
    ∷ printf " cn_sig_warn\t\t\t: %#llx\n" (arg_u fc.stats.cn_sig_warn ∷ [])
    ∷ printf " fpin_cn\t\t\t: %#llx\n" (arg_u fc.stats.fpin_cn ∷ [])
    ∷ printf " fpin_cn_device_specific\t: %#llx \n" (arg_u fc.stats.fpin_cn_device_specific ∷ [])
    ∷ printf " fpin_cn_credit_stall\t\t: %#llx \n" (arg_u fc.stats.fpin_cn_credit_stall ∷ [])
    ∷ printf " fpin_cn_lost_credits\t\t: %#llx \n" (arg_u fc.stats.fpin_cn_lost_credit ∷ [])
    ∷ printf " fpin_cn_oversubscription\t: %#llx \n" (arg_u fc.stats.fpin_cn_oversubscription ∷ [])
    ∷ printf "\n" []
    ∷ [])
