-- ===== src/Print/Fits.antt =====
-- scsi_print.c and scsi_help.c: the formats against their arguments.
use scsi_cli.Prelude.{List, Option, Text, [], none, some, ◌∷◌}
use scsi_cli.Clib.Format.{all_of, arg_s, arg_u32, both, printf}
use scsi_cli.Cmd.Tables.{cmd_str}
use scsi_cli.Device.{
  Shown, attached_disk, disk_header, disk_info, disk_stats, enclosure_header, enclosure_info,
  fc_dev, fc_dev_header, fc_info, fc_port_stats, fc_rport_header, fc_rport_info, general_help,
  generic_disk_header, generic_disk_info, iscsi_connection_info, iscsi_dev, iscsi_dev_header,
  iscsi_header, iscsi_scsi_disk, iscsi_session_info, list_help, mpath_disk_header, mpath_disk_info,
  nvme_disk_details, nvme_disk_header, nvme_disk_info, scsi_disk_details, stats_help, subcommands,
  version,
}
use scsi_cli.Print.{dash, space}
use scsi_cli.Print.Details.{print_nvme_disk_details, print_scsi_disk_details, print_scsi_queue_data}
use scsi_cli.Print.Fibre.{
  print_fc_dev_header, print_fc_info, print_fc_rport_header, print_fc_rport_info, print_list_fc_dev,
}
use scsi_cli.Print.Help.{
  list_builtins, padding, print_general_help, print_list_help, print_rows, print_stats_help,
  print_subcommands, print_version, usage,
}
use scsi_cli.Print.Iscsi.{
  print_iscsi_connection_info, print_iscsi_dev_header, print_iscsi_header, print_iscsi_scsi_disk,
  print_iscsi_session_info, print_list_iscsi_dev,
}
use scsi_cli.Print.Render.{print_attached_disk, render}
use scsi_cli.Print.Statistics.{print_disk_stats, print_fc_port_stats}
use scsi_cli.Print.Tables.{
  print_disk_header, print_disk_info, print_enclosure_header, print_enclosure_info,
  print_generic_disk_header, print_generic_disk_info, print_mpath_disk_header,
  print_mpath_disk_info, print_nvme_disk_header, print_nvme_disk_info,
}

-- The text was printed: no conversion lacked an argument of its kind and size.
abbrev pub IsPrinted : Option Text → Type 0
IsPrinted none = ⊥
IsPrinted (some t) = Unit

row-IsPrinted :
    (name desc : Text) (o : Option Text)
    → IsPrinted o
    → IsPrinted (
        both
          (printf "%-.2s%-*s%-.4s%s\n" (
            arg_s (some space)
            ∷ arg_u32 padding
            ∷ arg_s (some name)
            ∷ arg_s (some space)
            ∷ arg_s (some desc)
            ∷ []))
          o)
unfolding printf
row-IsPrinted name desc none h = absurd h
row-IsPrinted name desc (some t) h = tt

print_rows-IsPrinted : (rows : List (Text × Text)) → IsPrinted (print_rows rows)
unfolding print_rows
print_rows-IsPrinted [] = tt
print_rows-IsPrinted ((name, desc) ∷ rest) =
    row-IsPrinted name desc (print_rows rest) (print_rows-IsPrinted rest)

headed-IsPrinted :
    (cmd : Text) (o : Option Text)
    → IsPrinted o
    → IsPrinted (
        all_of (
          printf "\n%-.2sFollowing Sub-Commands are supported for '%s'\n"
            (arg_s (some space) ∷ arg_s (some cmd) ∷ [])
          ∷ printf "%-.2s%-.64s\n" (arg_s (some space) ∷ arg_s (some dash) ∷ [])
          ∷ o
          ∷ printf "\n" []
          ∷ []))
unfolding printf
headed-IsPrinted cmd none h = absurd h
headed-IsPrinted cmd (some t) h = tt

print_subcommands-IsPrinted :
    (cmd : Text) (rows : List (Text × Text)) → IsPrinted (print_subcommands cmd rows)
unfolding print_subcommands printf
print_subcommands-IsPrinted cmd [] = tt
print_subcommands-IsPrinted cmd (row ∷ rest) =
    headed-IsPrinted cmd (print_rows (row ∷ rest)) (print_rows-IsPrinted (row ∷ rest))

-- Whatever a print routine is given, each of its calls of printf finds, for each conversion, an
-- argument of the kind and of the size that the conversion takes, where a signed and an unsigned
-- number of one size are one kind.
pub render-IsPrinted : (x : Shown) → IsPrinted (render x)
unfolding render printf print_disk_header print_nvme_disk_header print_generic_disk_header
    print_mpath_disk_header print_enclosure_header print_fc_dev_header print_fc_rport_header
    print_iscsi_dev_header print_disk_info print_nvme_disk_info print_generic_disk_info
    print_mpath_disk_info print_enclosure_info print_scsi_disk_details print_nvme_disk_details
    print_scsi_queue_data print_disk_stats print_list_fc_dev print_fc_info print_fc_port_stats
    print_fc_rport_info print_list_iscsi_dev print_iscsi_header print_iscsi_session_info
    print_iscsi_scsi_disk print_iscsi_connection_info print_attached_disk print_general_help usage
    list_builtins print_list_help print_stats_help print_version cmd_str
render-IsPrinted disk_header = tt
render-IsPrinted nvme_disk_header = tt
render-IsPrinted generic_disk_header = tt
render-IsPrinted mpath_disk_header = tt
render-IsPrinted enclosure_header = tt
render-IsPrinted fc_dev_header = tt
render-IsPrinted fc_rport_header = tt
render-IsPrinted iscsi_dev_header = tt
render-IsPrinted (disk_info d) = tt
render-IsPrinted (nvme_disk_info d) = tt
render-IsPrinted (generic_disk_info d) = tt
render-IsPrinted (mpath_disk_info d) = tt
render-IsPrinted (enclosure_info d) = tt
render-IsPrinted (scsi_disk_details d) = tt
render-IsPrinted (nvme_disk_details d) = tt
render-IsPrinted (disk_stats s name) = tt
render-IsPrinted (fc_dev fc) = tt
render-IsPrinted (fc_info fc) = tt
render-IsPrinted (fc_port_stats fc) = tt
render-IsPrinted (fc_rport_info rport) = tt
render-IsPrinted (iscsi_dev d) = tt
render-IsPrinted (iscsi_header title name) = tt
render-IsPrinted (iscsi_session_info sess) = tt
render-IsPrinted (iscsi_scsi_disk sess) = tt
render-IsPrinted (iscsi_connection_info conn) = tt
render-IsPrinted (attached_disk name disk_state) = tt
render-IsPrinted (subcommands cmd rows) = print_subcommands-IsPrinted cmd rows
render-IsPrinted general_help = tt
render-IsPrinted list_help = tt
render-IsPrinted stats_help = tt
render-IsPrinted version = tt
