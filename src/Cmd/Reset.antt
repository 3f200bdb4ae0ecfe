-- ===== src/Cmd/Reset.antt =====
-- scsi_test.c: cmd_reset.
use scsi_cli.Prelude.{
  List, Text, get_elem?, if_null, if◌then◌else◌, is_negative, length, pos, text, ℤ,
}
use scsi_cli.Clib.Compare.{strncmp_eq}
use scsi_cli.Clib.Printf.{snprintf_into}
use scsi_cli.Cmd.List.{handle_cmd_errors}
use scsi_cli.Cmd.Tables.{validate_subcommand}
use scsi_cli.Trigger.{fc_hba_reset}
use scsi_cli.World.{M, System, lift, pure, say, ◌>>=◌, ◌>>◌}

module _ (sys : System) where
  -- the tests of cmd_reset on argv[2]: three of the four sub-commands only print in a debug build
  unfoldable pub reset_device : List Text → Text → M ℤ
  reset_device argv sub_cmd =
      if strncmp_eq sub_cmd (text "adapter") 7
      then (do err ← fc_hba_reset sys argv; pure (if is_negative err then err else pos 0))
      else pure (pos 0)

  -- cmd_reset: the buffer disk_str has 32 bytes, and gets argv[3] without its last character.
  unfoldable pub cmd_reset : List Text → M ℤ
  cmd_reset argv = do
    cmd ← lift (get_elem? argv 1)
    if_null (get_elem? argv 2) (do handle_cmd_errors sys cmd; pure (pos 0))
        (λ sub_cmd.
          if is_negative (validate_subcommand cmd sub_cmd)
          then pure (validate_subcommand cmd sub_cmd)
          else if_null (get_elem? argv 3)
              (do say "Please provide FC port name to '%s' reset command"; pure (pos 0))
              (λ device. (do
                disk_str ← lift (snprintf_into 32 (length device) device)
                if strncmp_eq disk_str (text "host") 4
                    then reset_device argv sub_cmd
                    else (do say "Please use a valid FC adapter\n"; pure (pos 0)))))
