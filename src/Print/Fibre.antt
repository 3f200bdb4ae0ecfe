-- ===== src/Print/Fibre.antt =====
-- scsi_print.c: Fibre Channel hosts and remote ports.
use scsi_cli.Prelude.{Option, Text, [], some, text, ◌∷◌}
use scsi_cli.Clib.Format.{all_of, arg_d, arg_s, printf}
use scsi_cli.Device.Fibre.{FcDeviceInfo, FcRportInfo}
use scsi_cli.Print.{dash}

-- print_fc_info
unfoldable pub print_fc_info : FcDeviceInfo → Option Text
print_fc_info fc = all_of (
    printf "\n%-.48s\n" (arg_s (some dash) ∷ [])
    ∷ printf "\tShow Details for FC %s " (arg_s fc.host_name ∷ [])
    ∷ printf "\n%-.48s\n" (arg_s (some dash) ∷ [])
    ∷ printf "\n" []
    ∷ printf " Adapter Name\t  : %s \n" (arg_s fc.product_name ∷ [])
    ∷ printf " Model Desc\t  : %s \n" (arg_s fc.model_desc ∷ [])
    ∷ printf " Host Name\t  : %s \n" (arg_s fc.host_name ∷ [])
    ∷ printf " Node Name\t  : %s \n" (arg_s fc.node_name ∷ [])
    ∷ printf " Port Name\t  : %s \n" (arg_s fc.port_name ∷ [])
    ∷ printf " Fabric Name\t  : %s \n" (arg_s fc.fabric_name ∷ [])
    ∷ printf " Serial Number\t  : %s \n" (arg_s fc.serial_num ∷ [])
    ∷ printf " Port ID\t  : %s \n" (arg_s fc.port_id ∷ [])
    ∷ printf " Port State\t  : %s \n" (arg_s fc.port_state ∷ [])
    ∷ printf " Port Type \t  : %s \n" (arg_s fc.port_type ∷ [])
    ∷ printf " Driver Attached  : %s \n" (arg_s fc.driver_name ∷ [])
    ∷ printf " Driver Version\t  : %s \n" (arg_s fc.drv_version ∷ [])
    ∷ printf " Firmware Version : %s \n" (arg_s fc.fw_version ∷ [])
    ∷ printf " Supported Speed  : %s \n" (arg_s fc.supported_speed ∷ [])
    ∷ printf " Supported Class  : %s \n" (arg_s fc.supported_class ∷ [])
    ∷ printf " Symbolic Name\t  : %s \n" (arg_s fc.symbolic_name ∷ [])
    ∷ printf " Dev Loss Timeout : %d \n" (arg_d fc.dev_loss_tmo ∷ [])
    ∷ printf " Link State\t  : %s \n" (arg_s fc.link_state ∷ [])
    ∷ printf " Active Mode\t  : %s \n" (arg_s fc.active_mode ∷ [])
    ∷ printf " Max NPIV VPorts  : %d \n" (arg_d fc.max_npiv_vports ∷ [])
    ∷ printf " In Use NPIV Port : %d \n" (arg_d fc.npiv_vports_inuse ∷ [])
    ∷ printf " R-Ports Found\t  : %d\n" (arg_d fc.no_rports ∷ [])
    ∷ printf "\n" []
    ∷ [])

-- print_fc_dev_header
unfoldable pub print_fc_dev_header : Option Text
print_fc_dev_header = all_of (
    printf "\n" []
    ∷ printf "%-8s\t%-8s\t%-8s\t%-16s\t%-16s\t%-8s\t%-24s\t%-8s\t%-s \n" (
        arg_s (some (text "Host"))
        ∷ arg_s (some (text "Model"))
        ∷ arg_s (some (text "Speed"))
        ∷ arg_s (some (text "SerialNum"))
        ∷ arg_s (some (text "DriverVer"))
        ∷ arg_s (some (text "DriverName"))
        ∷ arg_s (some (text "FW_Ver"))
        ∷ arg_s (some (text "Role"))
        ∷ arg_s (some (text "State"))
        ∷ [])
    ∷ printf "%-.8s\t%-.8s\t%-.8s\t%-.16s\t%-.16s\t%-.8s\t%-.24s\t%-.8s\t%-.24s \n" (
        arg_s (some dash)
        ∷ arg_s (some dash)
        ∷ arg_s (some dash)
        ∷ arg_s (some dash)
        ∷ arg_s (some dash)
        ∷ arg_s (some dash)
        ∷ arg_s (some dash)
        ∷ arg_s (some dash)
        ∷ arg_s (some dash)
        ∷ [])
    ∷ [])

-- print_list_fc_dev
unfoldable pub print_list_fc_dev : FcDeviceInfo → Option Text
print_list_fc_dev fc = all_of (
    printf "%-8s\t%-8s\t%-4sGBit\t%-16s\t%-16s\t%-8s\t%-24s\t%-8s\t%-s \n" (
      arg_s fc.host_name
      ∷ arg_s fc.product_name
      ∷ arg_s fc.port_speed
      ∷ arg_s fc.serial_num
      ∷ arg_s fc.drv_version
      ∷ arg_s fc.driver_name
      ∷ arg_s fc.fw_version
      ∷ arg_s fc.active_mode
      ∷ arg_s fc.link_state
      ∷ [])
    ∷ [])

-- print_fc_rport_header
unfoldable pub print_fc_rport_header : Option Text
print_fc_rport_header = all_of (
    printf "\n" []
    ∷ printf "%-16s %-16s %-32s %-32s %-32s %-16s\n" (
        arg_s (some (text "Rport"))
        ∷ arg_s (some (text "Rport_State"))
        ∷ arg_s (some (text "Roles"))
        ∷ arg_s (some (text "Rport_Name"))
        ∷ arg_s (some (text "Node_Name"))
        ∷ arg_s (some (text "Rport_ID"))
        ∷ [])
    ∷ printf "%-.16s %-.16s %-.32s %-.32s %-.32s %-.16s\n" (
        arg_s (some dash)
        ∷ arg_s (some dash)
        ∷ arg_s (some dash)
        ∷ arg_s (some dash)
        ∷ arg_s (some dash)
        ∷ arg_s (some dash)
        ∷ [])
    ∷ [])

-- print_fc_rport_info
unfoldable pub print_fc_rport_info : FcRportInfo → Option Text
print_fc_rport_info rport = all_of (
    printf "%-16s %-16s %-32s %-32s %-32s %-16s\n" (
      arg_s rport.rport_name
      ∷ arg_s rport.port_state
      ∷ arg_s rport.roles
      ∷ arg_s rport.port_name
      ∷ arg_s rport.node_name
      ∷ arg_s rport.port_id
      ∷ [])
    ∷ [])
