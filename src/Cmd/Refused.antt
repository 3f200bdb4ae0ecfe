-- ===== src/Cmd/Refused.antt =====
-- scsi_test.c: commands that the checks before them never let pass.
use scsi_cli.Prelude.{
  List, Text, arith, enoent, false, length, ltb, pos, refl, some, suc, text, true, ℕ, ◌∷◌, ◌≡◌,
}
use scsi_cli.Cmd.Dispatch.{parse_cmd-find_command, run_handler}
use scsi_cli.Cmd.List.{cmd_list}
use scsi_cli.Cmd.Main.{parse_cmd}
use scsi_cli.Cmd.Requests.{cmd_alias, cmd_errors, cmd_offline, cmd_online, cmd_scan}
use scsi_cli.Cmd.Reset.{cmd_reset}
use scsi_cli.Cmd.Show.{cmd_show}
use scsi_cli.Cmd.Stats.{cmd_stats}
use scsi_cli.Cmd.Tables.{cmd_str, find_command, strip_dashes, validate_subcommand}
use scsi_cli.Disk.Lists.{named}
use scsi_cli.World.{System, World, pure, say, ◌>>=◌, ◌>>◌}

many : (n : ℕ) → ltb 2 (suc (suc (suc (suc n)))) ≡ true
many n = ground arith

module _ (program sub_cmd device : Text) (rest : List Text) where
  -- alias, online, offline and errors, given a sub-command and a device, give -ENOENT whatever the
  -- two are, and change nothing but what is printed.
  pub by_device_refused :
      (w : World)
      → (cmd_alias (program ∷ text "alias" ∷ sub_cmd ∷ device ∷ rest) w
          ≡ (say "Set '%s' for device to your favourite name" >> pure enoent) w)
        × ((cmd_online (program ∷ text "online" ∷ sub_cmd ∷ device ∷ rest) w ≡ pure enoent w)
            × ((cmd_offline (program ∷ text "offline" ∷ sub_cmd ∷ device ∷ rest) w ≡ pure enoent w)
                × (cmd_errors (program ∷ text "errors" ∷ sub_cmd ∷ device ∷ rest) w
                    ≡ (say "Get Error Details for %s" >> pure enoent) w)))
  unfolding cmd_alias cmd_online cmd_offline cmd_errors validate_subcommand ◌>>=◌
  by_device_refused w = (
    rw (many (length rest)) refl,
    (rw (many (length rest)) refl, (rw (many (length rest)) refl, rw (many (length rest)) refl)),
  )

  -- With a dash before the command, list, show, reset and stats give -ENOENT and do nothing,
  -- whatever the sub-command and the device are.
  pub dashes_refused :
      (sys : System) (name : Text) (w : World)
      → let argv = program ∷ (b'-' ∷ name) ∷ sub_cmd ∷ device ∷ rest in
        (cmd_list sys argv w ≡ some (enoent, w))
        × ((cmd_show sys argv w ≡ some (enoent, w))
            × ((cmd_reset sys argv w ≡ some (enoent, w))
                × (cmd_stats sys argv w ≡ some (enoent, w))))
  unfolding cmd_list cmd_show cmd_reset cmd_stats validate_subcommand ◌>>=◌
  dashes_refused sys name w = (refl, (refl, (refl, refl)))

module _ (sys : System) (program arg : Text) (rest : List Text) where
  few : (n : ℕ) → ltb (suc (suc n)) 2 ≡ false
  few n = ground arith

  -- The command scan, with or without dashes and whatever follows it, prints that it is not
  -- supported and gives 0.
  pub scan_unsupported :
      strip_dashes arg ≡ text "scan"
      → (w : World)
      → parse_cmd sys (program ∷ arg ∷ rest) w
        ≡ (say "(%d) Command '%s' is not currently supported" >> pure (pos 0)) w
  unfolding cmd_scan run_handler find_command cmd_str
  scan_unsupported named w =
      rw (parse_cmd-find_command sys (program ∷ arg ∷ rest) arg refl, named, few (length rest)) refl
