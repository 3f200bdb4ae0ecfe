-- ===== src/Cmd/Main.antt =====
-- scsi_test.c: parse_cmd, handle_cmd and main.
use scsi_cli.Prelude.{
  Bool, List, Text, eagain, einval, enodev, enoent, enotty, eq_ℤ, get_elem?, if◌then◌else◌,
  is_negative, length, ltb, not, pos, text, ℕ, ℤ, ◌||◌,
}
use scsi_cli.Clib.Compare.{strncmp_eq}
use scsi_cli.Cmd.Help.{help_cmd, version_cmd}
use scsi_cli.Cmd.List.{cmd_list}
use scsi_cli.Cmd.Requests.{cmd_alias, cmd_errors, cmd_offline, cmd_online, cmd_scan}
use scsi_cli.Cmd.Reset.{cmd_reset}
use scsi_cli.Cmd.Show.{cmd_show}
use scsi_cli.Cmd.Stats.{cmd_stats}
use scsi_cli.Cmd.Tables.{strip_dashes, validate_command}
use scsi_cli.Device.{general_help}
use scsi_cli.World.{M, System, emit, free, lift, malloc, pure, say, shown, ◌>>=◌, ◌>>◌}

-- if (test) err = call;
abbrev pub run_if : Bool → M ℤ → ℤ → M ℤ
run_if test call err = if test then call else pure err

-- what handle_cmd makes of the result of parse_cmd
unfoldable pub report : ℤ → M ℤ
report ret =
    if is_negative ret
    then (do
      (if eq_ℤ ret enodev
          then say "\n %s: No Valid Device found \n"
          else if eq_ℤ ret eagain
          then say "%s: Command '%s' not supported (%s) "
          else if eq_ℤ ret enoent
          then say "%s: Sub Command '%s' not supported (%s)"
          else say "%s: Command %s returned error. (%s)")
      pure einval)
    else pure ret

module _ (sys : System) where
  -- the tests of parse_cmd on the command without its dashes
  unfoldable pub run_command : Text → List Text → M ℤ
  run_command cmd argv = do
    e1 ← run_if (strncmp_eq cmd (text "list") 4) (cmd_list sys argv) (pos 0)
    e2 ← run_if (strncmp_eq cmd (text "show") 4) (cmd_show sys argv) e1
    e3 ← run_if (strncmp_eq cmd (text "scan") 4) (cmd_scan argv) e2
    e4 ← run_if (strncmp_eq cmd (text "reset") 5) (cmd_reset sys argv) e3
    e5 ← run_if (strncmp_eq cmd (text "alias") 4) (cmd_alias argv) e4
    e6 ← run_if (strncmp_eq cmd (text "stats") 4) (cmd_stats sys argv) e5
    e7 ← run_if (strncmp_eq cmd (text "online") 6) (cmd_online argv) e6
    e8 ← run_if (strncmp_eq cmd (text "offline") 7) (cmd_offline argv) e7
    run_if (strncmp_eq cmd (text "errors") 6) (cmd_errors argv) e8

  -- parse_cmd
  unfoldable pub parse_cmd : List Text → M ℤ
  parse_cmd argv = do
    arg ← lift (get_elem? argv 1)
    let cmd = strip_dashes arg
    if is_negative (validate_command cmd) then pure (validate_command cmd) else run_command cmd argv

  -- handle_cmd, for 1 < argc
  unfoldable pub handle_cmd : List Text → M ℤ
  handle_cmd argv = do
    arg ← lift (get_elem? argv 1)
    let str = strip_dashes arg
    got ← malloc
    if not got then pure einval else (do
      ret ←
          (if strncmp_eq str (text "help") 4 || strncmp_eq str (text "h") 1
            then help_cmd argv
            else if strncmp_eq str (text "version") 7 || strncmp_eq str (text "v") 1
            then (do version_cmd; pure (pos 0))
            else (do r ← parse_cmd argv; report r))
      free
      pure ret)

  -- main: the exit status
  unfoldable pub main : List Text → M ℕ
  main argv = if ltb (length argv) 2 then (do emit (shown general_help); pure 0) else (do
    err ← handle_cmd argv
    (if eq_ℤ err enotty then emit (shown general_help) else pure tt)
    pure (if eq_ℤ err (pos 0) then 0 else 1))
