-- ===== src/Print/Help.antt =====
-- scsi_help.c, and the tables of commands as scsi_test.c prints them.
use scsi_cli.Prelude.{List, Option, Text, [], some, text, ℕ, ◌∷◌}
use scsi_cli.Clib.Format.{all_of, arg_s, arg_u32, both, printf}
use scsi_cli.Cmd.Tables.{Handler, cmd_str}
use scsi_cli.Print.{dash, space}

-- SCSI_TOOL_NAME
abbrev pub tool_name : Text
tool_name = text "scsi-cli"

-- SCSI_TOOL_VERSION
abbrev pub tool_version : Text
tool_version = text "v0.1"

-- padding
abbrev pub padding : ℕ
padding = 15

-- list_builtins
unfoldable pub list_builtins : List (Text × (Handler × Text)) → Option Text
list_builtins [] = some []
list_builtins ((name, (fn, desc)) ∷ rest) =
    both
      (printf "%-.4s%-*s%-.4s%s\n" (
        arg_s (some space)
        ∷ arg_u32 padding
        ∷ arg_s (some name)
        ∷ arg_s (some space)
        ∷ arg_s (some desc)
        ∷ []))
      (list_builtins rest)

-- the second loop of list_subcommands
unfoldable pub print_rows : List (Text × Text) → Option Text
print_rows [] = some []
print_rows ((sub_name, desc) ∷ rest) =
    both
      (printf "%-.2s%-*s%-.4s%s\n" (
        arg_s (some space)
        ∷ arg_u32 padding
        ∷ arg_s (some sub_name)
        ∷ arg_s (some space)
        ∷ arg_s (some desc)
        ∷ []))
      (print_rows rest)

-- what list_subcommands prints for a command with these rows
unfoldable pub print_subcommands : Text → List (Text × Text) → Option Text
unfolding print_rows
print_subcommands cmd [] = printf "\n" []
print_subcommands cmd (row ∷ rest) = all_of (
    printf "\n%-.2sFollowing Sub-Commands are supported for '%s'\n"
      (arg_s (some space) ∷ arg_s (some cmd) ∷ [])
    ∷ printf "%-.2s%-.64s\n" (arg_s (some space) ∷ arg_s (some dash) ∷ [])
    ∷ print_rows (row ∷ rest)
    ∷ printf "\n" []
    ∷ [])

-- usage
unfoldable pub usage : Option Text
usage = all_of (
    printf "%-.4sUsage:\n" (arg_s (some space) ∷ [])
    ∷ printf "%-.4s%-.6s\n" (arg_s (some space) ∷ arg_s (some dash) ∷ [])
    ∷ printf "%-.4s%s <command> <sub-command> [<device>]\n"
        (arg_s (some space) ∷ arg_s (some tool_name) ∷ [])
    ∷ printf "\n" []
    ∷ printf "%-.4sWhere:\n" (arg_s (some space) ∷ [])
    ∷ printf "%-.4s%-.6s\n" (arg_s (some space) ∷ arg_s (some dash) ∷ [])
    ∷ printf "%-.4sThe '<sub-command>' is command specific options supported by the tool\n"
        (arg_s (some space) ∷ [])
    ∷ printf "%-.4sThe '<device>' may be either\n" (arg_s (some space) ∷ [])
    ∷ printf "\n" []
    ∷ printf "%-.6s- A Fibre Channel Device\n" (arg_s (some space) ∷ [])
    ∷ printf "\n" []
    ∷ printf "%-.6s- An iSCSI Device\n" (arg_s (some space) ∷ [])
    ∷ printf "\n" []
    ∷ printf "%-.6s- One of the\n" (arg_s (some space) ∷ [])
    ∷ printf "%-.8s- SCSI generic device (ex: /dev/sdX)\n" (arg_s (some space) ∷ [])
    ∷ printf "%-.8s- SCSI disk device (ex: /dev/sgX)\n" (arg_s (some space) ∷ [])
    ∷ printf "%-.8s- NVMe Block device (ex: /dev/nvmeXnY)\n" (arg_s (some space) ∷ [])
    ∷ printf "%-.8s- NVMe generic Block device (ex: /dev/ngX)\n" (arg_s (some space) ∷ [])
    ∷ printf "%-.8s- Device Mapper stacking device (ex: /dev/dm-X)\n" (arg_s (some space) ∷ [])
    ∷ printf "%-.8s- RAID Array device (ex: /dev/mdXYZ)\n" (arg_s (some space) ∷ [])
    ∷ [])

-- general_help
unfoldable pub print_general_help : Option Text
print_general_help = all_of (
    printf "\n" []
    ∷ printf "%-.4s%s - %s\n"
        (arg_s (some space) ∷ arg_s (some tool_name) ∷ arg_s (some tool_version) ∷ [])
    ∷ printf "\n" []
    ∷ usage
    ∷ printf "\n" []
    ∷ printf "%-.4sFollowing commands are implemented:\n" (arg_s (some space) ∷ [])
    ∷ printf "%-.4s%-.64s\n" (arg_s (some space) ∷ arg_s (some dash) ∷ [])
    ∷ list_builtins cmd_str
    ∷ printf "\n" []
    ∷ printf "%-.4sSee '%s help <command>' for each command\n"
        (arg_s (some space) ∷ arg_s (some tool_name) ∷ [])
    ∷ printf "\n" []
    ∷ [])

-- print_list_help
unfoldable pub print_list_help : Option Text
print_list_help = all_of (
    printf " %-*s %s" (
      arg_u32 padding
      ∷ arg_s (some (text "list"))
      ∷ arg_s (some (text "List Block Devices, FC Adapters"))
      ∷ [])
    ∷ printf "\n" []
    ∷ [])

-- print_stats_help
unfoldable pub print_stats_help : Option Text
print_stats_help = all_of (
    printf "%-*s %s" (
      arg_u32 padding
      ∷ arg_s (some (text "stats"))
      ∷ arg_s (some (text "Show statistics for Block Devices, FC Adapters"))
      ∷ [])
    ∷ printf "\n" []
    ∷ [])

-- version_cmd
unfoldable pub print_version : Option Text
print_version = all_of (
    printf " %s - %s\n" (arg_s (some tool_name) ∷ arg_s (some tool_version) ∷ [])
    ∷ printf "\n" []
    ∷ printf " %-*s %s\n" (
        arg_u32 padding
        ∷ arg_s (some (text "version"))
        ∷ arg_s (some (text "Shows the program version"))
        ∷ [])
    ∷ [])
