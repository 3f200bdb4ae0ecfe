-- ===== src/Print/Render.antt =====
-- scsi_print.c and scsi_help.c: the text that each recorded call prints.
use scsi_cli.Prelude.{Option, Text, [], refl, some, text, ◌∷◌, ◌≡◌}
use scsi_cli.Clib.Format.{all_of, arg_s, printf}
use scsi_cli.Device.{
  Shown, attached_disk, disk_header, disk_info, disk_stats, enclosure_header, enclosure_info,
  fc_dev, fc_dev_header, fc_info, fc_port_stats, fc_rport_header, fc_rport_info, general_help,
  generic_disk_header, generic_disk_info, iscsi_connection_info, iscsi_dev, iscsi_dev_header,
  iscsi_header, iscsi_scsi_disk, iscsi_session_info, list_help, mpath_disk_header, mpath_disk_info,
  nvme_disk_details, nvme_disk_header, nvme_disk_info, scsi_disk_details, stats_help, subcommands,
  version,
}
use scsi_cli.Print.Details.{print_nvme_disk_details, print_scsi_disk_details}
use scsi_cli.Print.Fibre.{
  print_fc_dev_header, print_fc_info, print_fc_rport_header, print_fc_rport_info, print_list_fc_dev,
}
use scsi_cli.Print.Help.{
  print_general_help, print_list_help, print_stats_help, print_subcommands, print_version,
}
use scsi_cli.Print.Iscsi.{
  print_iscsi_connection_info, print_iscsi_dev_header, print_iscsi_header, print_iscsi_scsi_disk,
  print_iscsi_session_info, print_list_iscsi_dev,
}
use scsi_cli.Print.Statistics.{print_disk_stats, print_fc_port_stats}
use scsi_cli.Print.Tables.{
  print_disk_header, print_disk_info, print_enclosure_header, print_enclosure_info,
  print_generic_disk_header, print_generic_disk_info, print_mpath_disk_header,
  print_mpath_disk_info, print_nvme_disk_header, print_nvme_disk_info,
}

-- the line that get_iscsi_disk_hctl prints for a disk, and an empty one
unfoldable pub print_attached_disk : Text → Text → Option Text
print_attached_disk disk_name disk_state = all_of (
    printf " \tAttached Scsi Disk: %s\tState: %s \n"
      (arg_s (some disk_name) ∷ arg_s (some disk_state) ∷ [])
    ∷ printf "\n" []
    ∷ [])

unfoldable pub render : Shown → Option Text
render disk_header = print_disk_header
render nvme_disk_header = print_nvme_disk_header
render generic_disk_header = print_generic_disk_header
render mpath_disk_header = print_mpath_disk_header
render enclosure_header = print_enclosure_header
render fc_dev_header = print_fc_dev_header
render fc_rport_header = print_fc_rport_header
render iscsi_dev_header = print_iscsi_dev_header
render (disk_info d) = print_disk_info d
render (nvme_disk_info d) = print_nvme_disk_info d
render (generic_disk_info d) = print_generic_disk_info d
render (mpath_disk_info d) = print_mpath_disk_info d
render (enclosure_info d) = print_enclosure_info d
render (scsi_disk_details d) = print_scsi_disk_details d
render (nvme_disk_details d) = print_nvme_disk_details d
render (disk_stats s name) = print_disk_stats s name
render (fc_dev fc) = print_list_fc_dev fc
render (fc_info fc) = print_fc_info fc
render (fc_port_stats fc) = print_fc_port_stats fc
render (fc_rport_info rport) = print_fc_rport_info rport
render (iscsi_dev d) = print_list_iscsi_dev d
render (iscsi_header title name) = print_iscsi_header title name
render (iscsi_session_info sess) = print_iscsi_session_info sess
render (iscsi_scsi_disk sess) = print_iscsi_scsi_disk sess
render (iscsi_connection_info conn) = print_iscsi_connection_info conn
render (attached_disk name disk_state) = print_attached_disk name disk_state
render (subcommands cmd rows) = print_subcommands cmd rows
render general_help = print_general_help
render list_help = print_list_help
render stats_help = print_stats_help
render version = print_version

help_example :
    print_version ≡ some (text " scsi-cli - v0.1\n\n version         Shows the program version\n")
unfolding print_version printf
help_example = refl
