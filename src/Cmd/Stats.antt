-- ===== src/Cmd/Stats.antt =====
-- scsi_test.c: cmd_stats.
use scsi_cli.Prelude.{
  List, Text, get_elem?, if_null, if◌then◌else◌, is_negative, length, pos, text, ℤ, ◌+◌,
}
use scsi_cli.Clib.Compare.{strncmp_eq}
use scsi_cli.Clib.Printf.{snprintf_into}
use scsi_cli.Cmd.List.{handle_cmd_errors}
use scsi_cli.Cmd.Tables.{validate_subcommand}
use scsi_cli.Device.{disk_stats, fc_port_stats}
use scsi_cli.Disk.Stats.{get_disk_stats}
use scsi_cli.Fibre.Stats.{get_fc_dev_stats}
use scsi_cli.Loop.{Flow, after, give, next}
use scsi_cli.Sysfs.{alloc_fc_dev, alloc_scsi_dev, put_fc_dev, put_scsi_dev}
use scsi_cli.World.{M, System, emit, lift, pure, say, shown, ◌>>=◌, ◌>>◌}

module _ (sys : System) where
  -- the block of cmd_stats for a disk: `give` is a return from the middle
  unfoldable pub stats_disk : Text → M Flow
  stats_disk disk_str = do
    got ← alloc_scsi_dev
    if_null got (pure (give (pos 0))) (λ fresh. (do
      (err, d) ← get_disk_stats sys fresh disk_str
      if is_negative err
          then (do say "Can not get statistics for %s, (err=%d)"; put_scsi_dev; pure (give (pos 0)))
          else (do emit (shown (disk_stats d.dstat disk_str)); put_scsi_dev; pure next)))

  -- the block of cmd_stats for a port
  unfoldable pub stats_fc_port : Text → M Flow
  stats_fc_port disk_str = do
    got ← alloc_fc_dev
    if_null got (pure (give (pos 0))) (λ fresh. (do
      (err, fc) ← lift (get_fc_dev_stats sys disk_str fresh)
      if is_negative err
          then (do say "Can not get statistics for %s, (err=%d)"; put_fc_dev; pure (give (pos 0)))
          else (do emit (shown (fc_port_stats fc)); put_fc_dev; pure next)))

  -- the two blocks, by argv[2]
  unfoldable pub stats_device : Text → Text → M ℤ
  stats_device sub_cmd disk_str = do
    flow ← (if strncmp_eq sub_cmd (text "disk") 4 then stats_disk disk_str else pure next)
    after flow (do
      flow' ← (if strncmp_eq sub_cmd (text "fc_port") 7 then stats_fc_port disk_str else pure next)
      after flow' (pure (pos 0)))

  -- cmd_stats: the buffer disk_str has 32 bytes, and snprintf is told strlen(argv[3]) + 2.
  unfoldable pub cmd_stats : List Text → M ℤ
  cmd_stats argv = do
    cmd ← lift (get_elem? argv 1)
    if_null (get_elem? argv 2) (do handle_cmd_errors sys cmd; pure (pos 0))
        (λ sub_cmd.
          if_null (get_elem? argv 3)
            (do say "Please provide %s name to display Statistics"; pure (pos 0))
            (λ device.
              if is_negative (validate_subcommand cmd sub_cmd)
              then pure (validate_subcommand cmd sub_cmd)
              else (do
                disk_str ← lift (snprintf_into 32 (length device + 2) device)
                stats_device sub_cmd disk_str)))
