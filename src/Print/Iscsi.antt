-- ===== src/Print/Iscsi.antt =====
-- scsi_print.c: iSCSI hosts, sessions and connections.
use scsi_cli.Prelude.{Option, Text, [], some, text, ◌∷◌}
use scsi_cli.Clib.Format.{all_of, arg_d, arg_s, printf}
use scsi_cli.Device.Iscsi.{IscsiConnection, IscsiDevInfo, IscsiSession}
use scsi_cli.Print.{dash}

-- print_iscsi_dev_header
unfoldable pub print_iscsi_dev_header : Option Text
print_iscsi_dev_header = all_of (
    printf "\n" []
    ∷ printf "%-12s\t%-8s\t%-16s\t%-4s\t%-16s\t%-16s\t%-64s \n" (
        arg_s (some (text "Host Name"))
        ∷ arg_s (some (text "Transport"))
        ∷ arg_s (some (text "IP Address"))
        ∷ arg_s (some (text "Port"))
        ∷ arg_s (some (text "Connection"))
        ∷ arg_s (some (text "Session"))
        ∷ arg_s (some (text "Target Name"))
        ∷ [])
    ∷ printf "%-.12s\t%-.10s\t%-.16s\t%-.6s\t%-.16s\t%-.12s\t%-.64s\n" (
        arg_s (some dash)
        ∷ arg_s (some dash)
        ∷ arg_s (some dash)
        ∷ arg_s (some dash)
        ∷ arg_s (some dash)
        ∷ arg_s (some dash)
        ∷ arg_s (some dash)
        ∷ [])
    ∷ [])

-- print_list_iscsi_dev
unfoldable pub print_list_iscsi_dev : IscsiDevInfo → Option Text
print_list_iscsi_dev d = all_of (
    printf "%-12s\t%-8s\t%-16s\t%-4s\t%-16s\t%-12s\t%-64s \n" (
      arg_s d.host_name
      ∷ arg_s d.transport_name
      ∷ arg_s d.conn_address
      ∷ arg_s d.conn_port
      ∷ arg_s d.connection_name
      ∷ arg_s d.session_name
      ∷ arg_s d.target_name
      ∷ [])
    ∷ [])

-- print_iscsi_header
unfoldable pub print_iscsi_header : Text → Option Text → Option Text
print_iscsi_header title name = all_of (
    printf "%-.64s \n" (arg_s (some dash) ∷ [])
    ∷ printf " Displaying %s Information for: %s \n" (arg_s (some title) ∷ arg_s name ∷ [])
    ∷ printf "%-.64s \n" (arg_s (some dash) ∷ [])
    ∷ [])

-- print_iscsi_session_info
unfoldable pub print_iscsi_session_info : IscsiSession → Option Text
print_iscsi_session_info sess = all_of (
    printf " \n" []
    ∷ printf " Target Name\t\t:\t%-s \n" (arg_s sess.targetname ∷ [])
    ∷ printf " Target State\t\t:\t%-s \n" (arg_s sess.target_state ∷ [])
    ∷ printf " Session State\t\t:\t%-s \n" (arg_s sess.state ∷ [])
    ∷ printf " Abort Timeout\t\t:\t%d \n" (arg_d sess.abort_tmo ∷ [])
    ∷ printf " Creator ID\t\t:\t%-d \n" (arg_d sess.creator ∷ [])
    ∷ printf " Data PDU In Order\t:\t%d \n" (arg_d sess.data_pdu_in_order ∷ [])
    ∷ printf " Data SEQ In Order\t:\t%d \n" (arg_d sess.data_seq_in_order ∷ [])
    ∷ printf " Error Recovery Level\t:\t%d \n" (arg_d sess.err_level ∷ [])
    ∷ printf " Fast Abort\t\t:\t%d \n" (arg_d sess.fast_abort ∷ [])
    ∷ printf " First Burst Len\t:\t%d \n" (arg_d sess.first_burst_len ∷ [])
    ∷ printf " ifacename\t\t:\t%s \n" (arg_s sess.ifacename ∷ [])
    ∷ printf " immediate Data\t\t:\t%d \n" (arg_d sess.immediate_data ∷ [])
    ∷ printf " Initial R2T\t\t:\t%d \n" (arg_d sess.initial_r2t ∷ [])
    ∷ printf " Lun Reset Timeout\t:\t%d \n" (arg_d sess.lu_reset_tmo ∷ [])
    ∷ printf " Max Burst Len\t\t:\t%d \n" (arg_d sess.max_burst_len ∷ [])
    ∷ printf " Max Outstanding R2T\t:\t%d \n" (arg_d sess.max_outstanding_r2t ∷ [])
    ∷ printf " Recovery Timeout\t:\t%d \n" (arg_d sess.recovery_tmo ∷ [])
    ∷ printf "\n" []
    ∷ [])

-- print_iscsi_connection_info
unfoldable pub print_iscsi_connection_info : IscsiConnection → Option Text
print_iscsi_connection_info conn = all_of (
    printf " \n" []
    ∷ printf " State\t\t\t:\t%s \n" (arg_s conn.state ∷ [])
    ∷ printf " Port\t\t\t:\t%d \n" (arg_d conn.port ∷ [])
    ∷ printf " Ping Timeout\t\t:\t%-d \n" (arg_d conn.ping_tmo ∷ [])
    ∷ printf " Recv Timeout\t\t:\t%d \n" (arg_d conn.recv_tmo ∷ [])
    ∷ printf " Persistent Addr\t:\t%si \n" (arg_s conn.persistent_address ∷ [])
    ∷ printf " Persistent Port\t:\t%d \n" (arg_d conn.persistent_port ∷ [])
    ∷ printf " Header Digest\t\t:\t%d \n" (arg_d conn.header_digest ∷ [])
    ∷ printf " Data Digest\t\t:\t%d \n" (arg_d conn.data_digest ∷ [])
    ∷ printf " Expected StatSN\t:\t%d \n" (arg_d conn.exp_statsn ∷ [])
    ∷ printf " Max Recv datalen\t:\t%d \n" (arg_d conn.max_recv_dlength ∷ [])
    ∷ printf " Max Xmit datalen\t:\t%d \n" (arg_d conn.max_xmit_dlength ∷ [])
    ∷ printf " Address\t\t:\t%s \n" (arg_s conn.address ∷ [])
    ∷ printf " \n\n" []
    ∷ [])

-- print_iscsi_scsi_disk
unfoldable pub print_iscsi_scsi_disk : IscsiSession → Option Text
print_iscsi_scsi_disk sess = all_of (
    printf " Scsi%02d channel: %02d  Id: %02d Lun: %02d \n" (
      arg_d sess.scsi_channel ∷ arg_d sess.scsi_bus ∷ arg_d sess.scsi_id ∷ arg_d sess.scsi_lun ∷ [])
    ∷ [])
