-- ===== src/Cmd/Requests.antt =====
-- scsi_test.c: cmd_alias, cmd_errors, cmd_online, cmd_offline and cmd_scan. `argv` is the argument
-- vector without the null pointer at its end, so argc is its length.
use scsi_cli.Prelude.{
  List, Text, get_elem?, if◌then◌else◌, is_negative, length, ltb, pos, some, text, ℤ,
}
use scsi_cli.Clib.Compare.{strncmp_eq}
use scsi_cli.Cmd.Tables.{validate_subcommand}
use scsi_cli.Disk.Requests.{
  get_disk_error_count, scsi_scan_disk_dev, set_disk_alias, set_disk_offline, set_disk_online,
}
use scsi_cli.Fibre.Requests.{
  get_fcport_error_count, scsi_scan_fcport_dev, set_fcport_alias, set_fcport_offline,
  set_fcport_online,
}
use scsi_cli.Iscsi.Requests.{
  get_iscsi_error_count, scsi_scan_iscsi_dev, set_iscsi_alias, set_iscsi_dev_offline,
  set_iscsi_dev_online,
}
use scsi_cli.World.{M, lift, pure, say, ◌>>=◌, ◌>>◌}

-- The choice among the three kinds of devices by a prefix of argv[2].
unfoldable pub by_device : Text → M ℤ → M ℤ → M ℤ → M ℤ
by_device sub_cmd disk fc_port iscsi =
    if strncmp_eq sub_cmd (text "disk") 4
    then disk
    else if strncmp_eq sub_cmd (text "fc_port") 7
    then fc_port
    else if strncmp_eq sub_cmd (text "iscsi") 5
    then iscsi
    else (do say "Unknown Sub-command '%s' \n"; pure (pos 0))

-- The return of a negative error, and of 0 otherwise.
abbrev pub error_or_zero : ℤ → ℤ
error_or_zero err = if is_negative err then err else pos 0

-- cmd_alias returns the error also where it is not negative.
unfoldable pub cmd_alias : List Text → M ℤ
cmd_alias argv =
    if ltb 2 (length argv)
    then (do
      cmd ← lift (get_elem? argv 1)
      sub_cmd ← lift (get_elem? argv 2)
      say "Set '%s' for device to your favourite name"
      if is_negative (validate_subcommand cmd sub_cmd)
          then pure (validate_subcommand cmd sub_cmd)
          else by_device sub_cmd (set_disk_alias (get_elem? argv 3))
              (set_fcport_alias (get_elem? argv 3)) (set_iscsi_alias (get_elem? argv 3)))
    else (do say "(%d) Command '%s' is not currently supported"; pure (pos 0))

-- cmd_errors prints argv[3] first, which is undefined where it is NULL.
unfoldable pub cmd_errors : List Text → M ℤ
cmd_errors argv =
    if ltb 2 (length argv)
    then (do
      cmd ← lift (get_elem? argv 1)
      sub_cmd ← lift (get_elem? argv 2)
      device ← lift (get_elem? argv 3)
      say "Get Error Details for %s"
      if is_negative (validate_subcommand cmd sub_cmd)
          then pure (validate_subcommand cmd sub_cmd)
          else (do
            err ←
                by_device sub_cmd (get_disk_error_count (some device))
                  (get_fcport_error_count (some device)) (get_iscsi_error_count (some device))
            pure (error_or_zero err)))
    else (do say "(%d) Command '%s' is not currently supported"; pure (pos 0))

-- cmd_online
unfoldable pub cmd_online : List Text → M ℤ
cmd_online argv =
    if ltb 2 (length argv)
    then (do
      cmd ← lift (get_elem? argv 1)
      sub_cmd ← lift (get_elem? argv 2)
      if is_negative (validate_subcommand cmd sub_cmd)
          then pure (validate_subcommand cmd sub_cmd)
          else (do
            say "Call '%s' command"
            err ←
                by_device sub_cmd (set_disk_online (get_elem? argv 3))
                  (set_fcport_online (get_elem? argv 3)) (set_iscsi_dev_online (get_elem? argv 3))
            pure (error_or_zero err)))
    else (do say "(%d) Command '%s' is not currently supported"; pure (pos 0))

-- cmd_offline prints argv[3] before it looks at the device.
unfoldable pub cmd_offline : List Text → M ℤ
cmd_offline argv =
    if ltb 2 (length argv)
    then (do
      cmd ← lift (get_elem? argv 1)
      sub_cmd ← lift (get_elem? argv 2)
      if is_negative (validate_subcommand cmd sub_cmd)
          then pure (validate_subcommand cmd sub_cmd)
          else (do
            device ← lift (get_elem? argv 3)
            say "Call '%s' command"
            err ←
                by_device sub_cmd (set_disk_offline (some device))
                  (set_fcport_offline (some device)) (set_iscsi_dev_offline (some device))
            pure (error_or_zero err)))
    else (do say "(%d) Command '%s' is not currently supported"; pure (pos 0))

-- cmd_scan goes on only with fewer than two arguments, where argv[1] is NULL.
unfoldable pub cmd_scan : List Text → M ℤ
cmd_scan argv =
    if ltb (length argv) 2
    then (do
      cmd ← lift (get_elem? argv 1)
      sub_cmd ← lift (get_elem? argv 2)
      if is_negative (validate_subcommand cmd sub_cmd)
          then pure (validate_subcommand cmd sub_cmd)
          else (do
            err ←
                by_device sub_cmd (scsi_scan_disk_dev (get_elem? argv 3))
                  (scsi_scan_fcport_dev (get_elem? argv 3)) (scsi_scan_iscsi_dev (get_elem? argv 3))
            pure (error_or_zero err)))
    else (do say "(%d) Command '%s' is not currently supported"; pure (pos 0))
