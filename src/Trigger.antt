-- ===== src/Trigger.antt =====
-- scsi_trigger.c: the reset of a Fibre Channel host, and the rescan of the PCI bus.
use scsi_cli.Prelude.{
  List, Option, Text, einval, get_elem?, if_null, if◌then◌else◌, is_negative, none, pos, some, text,
  ℤ, ◌++◌,
}
use scsi_cli.Clib.Compare.{strncmp_eq}
use scsi_cli.Clib.Printf.{sprintf_into, truncated}
use scsi_cli.Cmd.Tables.{validate_subcommand}
use scsi_cli.Fibre.Ports.{fc_host}
use scsi_cli.World.{M, System, lift, pure, say, write_file, ◌>>=◌, ◌>>◌}

-- the attribute that fc_hba_reset writes to, for argv[2] and argv[3]; sprintf into 1024 bytes in the
-- first case, snprintf in the others
unfoldable pub reset_path : Text → Text → Option (Option Text)
unfolding sprintf_into
reset_path command fc_host =
    if strncmp_eq command (text "issue_logo") 10
    then (if_null
        (sprintf_into 1024 (text "/sys/class/fc_host/" ++ (fc_host ++ text "/device/issue_logo")))
        (none) (λ path. some (some path)))
    else if strncmp_eq command (text "issue_lip") 9
    then some (some (truncated 1024 (text "/sys/class/fc_host/" ++ (fc_host ++ text "/issue_lip"))))
    else if strncmp_eq command (text "adapter") 7
    then some
        (some (truncated 1024 (text "/sys/class/fc_host/" ++ (fc_host ++ text "/device/reset"))))
    else some none

-- what fc_hba_reset prints for each command
unfoldable pub announce : Text → M (Unit {0})
announce command =
    if strncmp_eq command (text "issue_logo") 10
    then say " Issuing LOGO command for FC host %s\n"
    else if strncmp_eq command (text "issue_lip") 9
    then say "Issuing LIP (Loop Initialization Protocol) for FC host %s\n"
    else if strncmp_eq command (text "adapter") 7
    then say " Issuing Reset for %s\n"
    else pure tt

module _ (sys : System) where
  -- fc_hba_reset
  unfoldable pub fc_hba_reset : List Text → M ℤ
  fc_hba_reset argv =
      if_null (get_elem? argv 3)
        (do
          say " Usage:\n\n"
          say " Missing argument for the sub-command [%s]\n\n"
          say " scsi reset <%s> [<arg>] \n"
          pure einval)
        (λ fc_host. (do
          cmd ← lift (get_elem? argv 1)
          command ← lift (get_elem? argv 2)
          if is_negative (validate_subcommand cmd command)
              then pure (validate_subcommand cmd command)
              else (do
                announce command
                target ← lift (reset_path command fc_host)
                if_null target (do say " Unknown Command %s \n"; pure einval)
                    (λ path. (do
                      say "Issuing %s\n"
                      done ← write_file sys path (text "1")
                      if done
                          then (do say "Command %s issued Sucessfully to %s\n"; pure (pos 0))
                          else (do say "perror"; pure einval))))))

  -- pci_bus_rescan; write to a descriptor that is not open fails, and nothing tests for that.
  unfoldable pub pci_bus_rescan : M (Unit {0})
  pci_bus_rescan = do
    say "%s: Issuing Rescan for %s\n"
    _ ← write_file sys (text "/sys/bus/pci/rescan") (text "1")
    pure tt
