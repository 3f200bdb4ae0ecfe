-- ===== src/Cmd/Show.antt =====
-- scsi_test.c: cmd_show. A block that returns a negative error leaves its structure allocated.
use scsi_cli.Prelude.{
  List, Option, Text, einval, eio, get_elem?, if_null, if◌then◌else◌, is_negative, length, pos,
  text, ℤ,
}
use scsi_cli.Clib.Compare.{strncmp_eq}
use scsi_cli.Clib.Printf.{snprintf_into}
use scsi_cli.Cmd.List.{attempt, handle_cmd_errors}
use scsi_cli.Cmd.Tables.{validate_subcommand}
use scsi_cli.Disk.Show.{show_disk_details, show_enclosure_details}
use scsi_cli.Fibre.Ports.{show_fc_port_details}
use scsi_cli.Iscsi.Show.{show_iscsi_details}
use scsi_cli.Sysfs.{
  alloc_fc_dev, alloc_iscsi_dev, alloc_scsi_dev, put_fc_dev, put_iscsi_dev, put_scsi_dev,
}
use scsi_cli.World.{M, System, lift, pure, say, ◌>>=◌, ◌>>◌}

module _ (sys : System) where
  -- The block for one kind of device: allocate, show, and free where that succeeded.
  unfoldable pub show_block : {D : Type 0} → M (Option D) → ℤ → (D → M ℤ) → M (Unit {0}) → M ℤ
  show_block alloc failure details put = do
    got ← alloc
    if_null got (pure failure) (λ fresh. (do
      err ← details fresh
      if is_negative err then pure err else (do put; pure err)))

  unfoldable pub show_disk : Text → M ℤ
  show_disk device =
      show_block alloc_scsi_dev einval (λ d. show_disk_details sys device d >>= λ r. pure r.0)
        put_scsi_dev

  unfoldable pub show_fc_port : Text → M ℤ
  show_fc_port device = show_block alloc_fc_dev eio (show_fc_port_details sys device) put_fc_dev

  unfoldable pub show_enclosure : Text → M ℤ
  show_enclosure sub_cmd =
      show_block alloc_scsi_dev einval (show_enclosure_details sub_cmd) put_scsi_dev

  unfoldable pub show_iscsi : Text → M ℤ
  show_iscsi device =
      show_block alloc_iscsi_dev einval (show_iscsi_details sys device) put_iscsi_dev

  -- the four blocks, by argv[2]
  unfoldable pub show_device : Text → Text → M ℤ
  show_device sub_cmd device =
      attempt (strncmp_eq sub_cmd (text "disk") 4) (show_disk device) (pos 0) λ e1.
        attempt (strncmp_eq sub_cmd (text "fc_port") 7) (show_fc_port device) e1 λ e2.
          attempt (strncmp_eq sub_cmd (text "enclosure") 9) (show_enclosure sub_cmd) e2
            λ e3. attempt (strncmp_eq sub_cmd (text "iscsi") 5) (show_iscsi device) e3 pure

  -- cmd_show: the buffer device_str has 16 bytes, and snprintf is told strlen(argv[3]).
  unfoldable pub cmd_show : List Text → M ℤ
  cmd_show argv = do
    cmd ← lift (get_elem? argv 1)
    if_null (get_elem? argv 2) (do handle_cmd_errors sys cmd; pure (pos 0))
        (λ sub_cmd.
          if is_negative (validate_subcommand cmd sub_cmd)
          then pure (validate_subcommand cmd sub_cmd)
          else if_null (get_elem? argv 3)
              (do say "Please provide %s name to display details"; pure (pos 0))
              (λ device. (do
                _ ← lift (snprintf_into 16 (length device) device)
                show_device sub_cmd device)))
