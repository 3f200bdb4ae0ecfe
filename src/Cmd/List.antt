-- ===== src/Cmd/List.antt =====
-- scsi_test.c: handle_cmd_errors and cmd_list.
use scsi_cli.Prelude.{
  Bool, List, Text, get_elem?, if_null, if◌then◌else◌, is_negative, pos, text, ℤ,
}
use scsi_cli.Clib.Compare.{strcmp_eq}
use scsi_cli.Cmd.Tables.{list_subcommands, validate_subcommand}
use scsi_cli.Disk.Enclosure.{list_enclosure}
use scsi_cli.Disk.Lists.{
  list_block_devs, list_cdrom_devs, list_controllers, list_generic_devs, list_multipath_devs,
  list_tape_devs,
}
use scsi_cli.Fibre.Ports.{list_fc_adapters}
use scsi_cli.Iscsi.Show.{list_iscsi_devs}
use scsi_cli.World.{M, System, emit, label, lift, pure, ◌>>=◌, ◌>>◌}

-- if (test) { err = call; if (err < 0) return err; }, with the value of err before it and what follows.
abbrev pub attempt : Bool → M ℤ → ℤ → (ℤ → M ℤ) → M ℤ
attempt test call err rest =
    if test then (do got ← call; if is_negative got then pure got else rest got) else rest err

module _ (sys : System) where
  -- handle_cmd_errors, of argv[1]
  unfoldable pub handle_cmd_errors : Text → M (Unit {0})
  handle_cmd_errors cmd = do
    list_subcommands cmd
    _ ← list_enclosure sys
    _ ← list_controllers sys
    _ ← list_block_devs sys
    _ ← list_multipath_devs sys
    _ ← list_fc_adapters sys
    _ ← list_iscsi_devs sys
    pure tt

  -- the tests of cmd_list on argv[2], from err = 0
  unfoldable pub list_devices : Text → M ℤ
  list_devices sub_cmd =
      attempt (strcmp_eq sub_cmd (text "fc_hba")) (list_fc_adapters sys) (pos 0) λ e1.
        attempt (strcmp_eq sub_cmd (text "iscsi")) (list_iscsi_devs sys) e1 λ e2.
          attempt (strcmp_eq sub_cmd (text "controller")) (list_controllers sys) e2 λ e3.
            attempt (strcmp_eq sub_cmd (text "disk")) (list_block_devs sys) e3 λ e4.
              attempt (strcmp_eq sub_cmd (text "multipath")) (list_multipath_devs sys) e4 λ e5.
                attempt (strcmp_eq sub_cmd (text "generic")) (list_generic_devs sys) e5 λ e6.
                  attempt (strcmp_eq sub_cmd (text "enclosure")) (list_enclosure sys) e6 λ e7.
                    attempt (strcmp_eq sub_cmd (text "cd-rom")) (list_cdrom_devs sys) e7 λ e8.
                      (if strcmp_eq sub_cmd (text "medium-changer")
                        then emit (label (text "Medium-Changer"))
                        else pure tt)
                      >> attempt (strcmp_eq sub_cmd (text "tape")) (list_tape_devs sys) e8 pure

  -- cmd_list
  unfoldable pub cmd_list : List Text → M ℤ
  cmd_list argv = do
    cmd ← lift (get_elem? argv 1)
    if_null (get_elem? argv 2) (do handle_cmd_errors cmd; pure (pos 0))
        (λ sub_cmd.
          if is_negative (validate_subcommand cmd sub_cmd)
          then pure (validate_subcommand cmd sub_cmd)
          else list_devices sub_cmd)
