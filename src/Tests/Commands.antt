-- ===== src/Tests/Commands.antt =====
-- The theorems on the commands at concrete inputs.
use mathlib.Core.List.{Memᴰ}
use scsi_cli.Prelude.{
  Text, [], arith, eagain, enoent, eq_ℤ, if_null, if◌then◌else◌, none, pos, refl, some, suc, text,
  ◌∷◌, ◌≡◌, ◌⊎◌,
}
use scsi_cli.Cmd.Dispatch.{parse_cmd-find_command, run_handler}
use scsi_cli.Cmd.Keeps.{Keeps-cmd_list}
use scsi_cli.Cmd.Known.{IsRow, command_names, validate_command_lem, validate_subcommand_lem}
use scsi_cli.Cmd.Leak.{LeaksOnError, show_disk-LeaksOnError}
use scsi_cli.Cmd.List.{cmd_list}
use scsi_cli.Cmd.Main.{handle_cmd, main, parse_cmd}
use scsi_cli.Cmd.Overflow.{long_name_undefined}
use scsi_cli.Cmd.Refused.{by_device_refused, dashes_refused, scan_unsupported}
use scsi_cli.Cmd.Requests.{cmd_alias, cmd_errors, cmd_offline, cmd_online}
use scsi_cli.Cmd.Reset.{cmd_reset}
use scsi_cli.Cmd.Show.{cmd_show, show_disk}
use scsi_cli.Cmd.Stats.{cmd_stats}
use scsi_cli.Cmd.Status.{IsReported, handle_cmd-IsReported, main-handle_cmd}
use scsi_cli.Cmd.Tables.{
  cmd_str, find_command, strip_dashes, sub_cmd_str, validate_command, validate_subcommand,
}
use scsi_cli.Cmd.Writes.{Keeps-cmd_reset, WritesReset, cmd_reset-WritesReset}
use scsi_cli.Tests.{fresh_world, small_system}
use scsi_cli.World.{pure, say, ◌>>=◌, ◌>>◌}
use scsi_cli.World.Keeps.{Ends, Keeps}
use scsi_cli.World.Returns.{Returns}

parse_cmd-find_command_example :
    parse_cmd small_system (text "scli" ∷ text "--list" ∷ text "disk" ∷ [])
    ≡ if_null
        (find_command (strip_dashes (text "--list")) cmd_str)
        (pure eagain)
        (λ h. run_handler small_system h (text "scli" ∷ text "--list" ∷ text "disk" ∷ []))
parse_cmd-find_command_example =
    parse_cmd-find_command small_system (text "scli" ∷ text "--list" ∷ text "disk" ∷ [])
      (text "--list") refl

validate_command_lem_example :
    (Memᴰ (text "list") command_names × (validate_command (text "list") ≡ pos 0))
    ⊎ (¬ (Memᴰ (text "list") command_names) × (validate_command (text "list") ≡ eagain))
validate_command_lem_example = validate_command_lem (text "list")

validate_subcommand_lem_example :
    (IsRow (text "scan") (text "block") sub_cmd_str
      × (validate_subcommand (text "scan") (text "block") ≡ pos 0))
    ⊎ (¬ (IsRow (text "scan") (text "block") sub_cmd_str)
        × (validate_subcommand (text "scan") (text "block") ≡ enoent))
validate_subcommand_lem_example = validate_subcommand_lem (text "scan") (text "block")

by_device_refused_example :
    (cmd_alias (text "scli" ∷ text "alias" ∷ text "disk" ∷ text "sda" ∷ []) fresh_world
      ≡ (say "Set '%s' for device to your favourite name" >> pure enoent) fresh_world)
    × ((cmd_online (text "scli" ∷ text "online" ∷ text "disk" ∷ text "sda" ∷ []) fresh_world
          ≡ pure enoent fresh_world)
        × ((cmd_offline (text "scli" ∷ text "offline" ∷ text "disk" ∷ text "sda" ∷ []) fresh_world
              ≡ pure enoent fresh_world)
            × (cmd_errors (text "scli" ∷ text "errors" ∷ text "disk" ∷ text "sda" ∷ []) fresh_world
                ≡ (say "Get Error Details for %s" >> pure enoent) fresh_world)))
by_device_refused_example =
    by_device_refused (text "scli") (text "disk") (text "sda") [] fresh_world

scan_unsupported_example :
    parse_cmd small_system (text "scli" ∷ text "--scan" ∷ text "block" ∷ []) fresh_world
    ≡ (say "(%d) Command '%s' is not currently supported" >> pure (pos 0)) fresh_world
unfolding strip_dashes
scan_unsupported_example =
    scan_unsupported small_system (text "scli") (text "--scan") (text "block" ∷ []) refl fresh_world

dashes_refused_example :
    let argv = text "scli" ∷ text "--list" ∷ text "disk" ∷ text "sda" ∷ [] in
    (cmd_list small_system argv fresh_world ≡ some (enoent, fresh_world))
    × ((cmd_show small_system argv fresh_world ≡ some (enoent, fresh_world))
        × ((cmd_reset small_system argv fresh_world ≡ some (enoent, fresh_world))
            × (cmd_stats small_system argv fresh_world ≡ some (enoent, fresh_world))))
dashes_refused_example =
    dashes_refused (text "scli") (text "disk") (text "sda") [] small_system (text "-list")
      fresh_world

handle_cmd-IsReported_example :
    Returns IsReported (handle_cmd small_system (text "scli" ∷ text "list" ∷ text "iscsi" ∷ []))
handle_cmd-IsReported_example =
    handle_cmd-IsReported small_system (text "scli" ∷ text "list" ∷ text "iscsi" ∷ [])

main-handle_cmd_example :
    main small_system (text "scli" ∷ text "stats" ∷ text "disk" ∷ text "sda" ∷ []) fresh_world
    ≡ (handle_cmd small_system (text "scli" ∷ text "stats" ∷ text "disk" ∷ text "sda" ∷ [])
          >>= λ err. pure (if eq_ℤ err (pos 0) then 0 else 1))
        fresh_world
main-handle_cmd_example =
    main-handle_cmd small_system (text "scli" ∷ text "stats" ∷ text "disk" ∷ text "sda" ∷ []) refl
      fresh_world

Keeps-cmd_list_example :
    Keeps (cmd_list small_system (text "scli" ∷ text "list" ∷ text "iscsi" ∷ []))
Keeps-cmd_list_example = Keeps-cmd_list small_system (text "scli" ∷ text "list" ∷ text "iscsi" ∷ [])

cmd_reset-WritesReset_example : Ends (WritesReset (text "host5") fresh_world) (
    cmd_reset small_system
      (text "scli" ∷ text "reset" ∷ text "adapter" ∷ text "host5" ∷ [])
      fresh_world)
cmd_reset-WritesReset_example =
    cmd_reset-WritesReset small_system (text "scli") (text "reset") (text "adapter") (text "host5")
      [] fresh_world

Keeps-cmd_reset_example :
    Keeps
      (cmd_reset small_system (text "scli" ∷ text "reset" ∷ text "issue_lip" ∷ text "host5" ∷ []))
Keeps-cmd_reset_example =
    Keeps-cmd_reset small_system (text "scli") (text "reset") (text "issue_lip") (text "host5" ∷ [])
      refl

show_disk-LeaksOnError_example :
    LeaksOnError fresh_world
      (show_disk small_system (text "sdb") (record fresh_world { budget = suc 2 }))
show_disk-LeaksOnError_example = show_disk-LeaksOnError small_system (text "sdb") fresh_world 2

abbrev long_name : Text
long_name = text "host5-and-a-name-that-is-too-long-for-it"

long_name_undefined_example :
    (cmd_show small_system (text "scli" ∷ text "show" ∷ text "disk" ∷ long_name ∷ []) fresh_world
      ≡ none)
    × ((cmd_reset small_system
            (text "scli" ∷ text "reset" ∷ text "adapter" ∷ long_name ∷ [])
            fresh_world
          ≡ none)
        × (cmd_stats small_system
              (text "scli" ∷ text "stats" ∷ text "disk" ∷ long_name ∷ [])
              fresh_world
            ≡ none))
long_name_undefined_example =
    long_name_undefined (text "scli") long_name [] small_system (omega arith) fresh_world
