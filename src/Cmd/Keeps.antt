-- ===== src/Cmd/Keeps.antt =====
-- scsi_test.c: what cmd_list does to the structures in use and to files.
use scsi_cli.Prelude.{Bool, List, Text, false, is_negative, true, ℤ}
use scsi_cli.Cmd.List.{attempt, cmd_list, handle_cmd_errors, list_devices}
use scsi_cli.Cmd.Tables.{list_subcommands}
use scsi_cli.Disk.Keeps.{
  Keeps-list_block_devs, Keeps-list_cdrom_devs, Keeps-list_controllers, Keeps-list_generic_devs,
  Keeps-list_multipath_devs, Keeps-list_tape_devs,
}
use scsi_cli.Disk.Keeps.Enclosure.{Keeps-list_enclosure}
use scsi_cli.Fibre.Keeps.{Keeps-list_fc_adapters}
use scsi_cli.Iscsi.Keeps.{Keeps-list_iscsi_devs}
use scsi_cli.Loop.Keeps.{loop_rules}
use scsi_cli.World.{M, System}
use scsi_cli.World.Keeps.{Keeps, Keeps-bind, Keeps-emit, Keeps-if, Keeps-pure, Keeps-then}

Keeps-attempt :
    (test : Bool) (call : M ℤ) (err : ℤ) (rest : ℤ → M ℤ)
    → Keeps call
    → ((e : ℤ) → Keeps (rest e))
    → Keeps (attempt test call err rest)
Keeps-attempt false call err rest kc kr = kr err
Keeps-attempt true call err rest kc kr =
    Keeps-bind call _ kc (λ got. Keeps-if (is_negative got) (Keeps-pure got) (kr got))

Keeps-list_subcommands : (cmd : Text) → Keeps (list_subcommands cmd)
unfolding list_subcommands
Keeps-list_subcommands cmd = search loop_rules

module _ (sys : System) where
  ruleset list_rules = (
    loop_rules, Keeps-attempt, Keeps-list_subcommands, Keeps-list_enclosure, Keeps-list_controllers,
    Keeps-list_block_devs, Keeps-list_multipath_devs, Keeps-list_fc_adapters, Keeps-list_iscsi_devs,
    Keeps-list_generic_devs, Keeps-list_cdrom_devs, Keeps-list_tape_devs,
  )

  pub Keeps-handle_cmd_errors : (cmd : Text) → Keeps (handle_cmd_errors sys cmd)
  unfolding handle_cmd_errors
  Keeps-handle_cmd_errors cmd = search list_rules depth 15

  Keeps-list_devices : (sub_cmd : Text) → Keeps (list_devices sys sub_cmd)
  unfolding list_devices
  Keeps-list_devices sub_cmd =
      search
        (
          Keeps-attempt, Keeps-then, Keeps-emit, Keeps-if, Keeps-pure, Keeps-list_enclosure,
          Keeps-list_controllers, Keeps-list_block_devs, Keeps-list_multipath_devs,
          Keeps-list_fc_adapters, Keeps-list_iscsi_devs, Keeps-list_generic_devs,
          Keeps-list_cdrom_devs, Keeps-list_tape_devs,
        )
        depth 30 fits 20000

  -- cmd_list, where it is defined, leaves as many structures allocated as it found and writes to
  -- no file, whether or not memory runs out.
  pub Keeps-cmd_list : (argv : List Text) → Keeps (cmd_list sys argv)
  unfolding cmd_list
  Keeps-cmd_list argv = search (list_rules, Keeps-handle_cmd_errors, Keeps-list_devices) depth 9
