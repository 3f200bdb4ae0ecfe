-- ===== src/Cmd/Completes.antt =====
-- scsi_test.c: the command `list disk`, from main to the rows.
use scsi_cli.Prelude.{
  All, List, Option, Text, [], ap, append_nil, arith, none, pos, refl, some, subst, sym, text, true,
  ℕ, ◌++◌, ◌+◌, ◌<◌, ◌∙◌, ◌∷◌, ◌≡◌,
}
use scsi_cli.Cmd.Dispatch.{parse_cmd-find_command, run_handler}
use scsi_cli.Cmd.List.{cmd_list, list_devices}
use scsi_cli.Cmd.Main.{handle_cmd, main, parse_cmd, report}
use scsi_cli.Cmd.Tables.{cmd_str, find_command, strip_dashes, validate_subcommand}
use scsi_cli.Disk.Completes.Block.{disks_listed, list_block_devs-Completes, structures_needed}
use scsi_cli.Disk.Completes.Rounds.{IsBlockReadable}
use scsi_cli.Disk.Lists.{list_block_devs, sysfs_block_path}
use scsi_cli.World.{Dirent, System, World, free, lift, malloc, pure}
use scsi_cli.World.Completes.{
  Completes, Completes-bind, Completes-free, Completes-known, Completes-lift, Completes-malloc,
  Completes-pure, Completes-within, Done, printed_rows,
}

module _ (sys : System) (program : Text) where
  -- The command line.
  abbrev pub list_disk : List Text
  list_disk = program ∷ text "list" ∷ text "disk" ∷ []

  module _ (n : ℕ) (names : List Text)
      (listed : Completes n names (λ r. r ≡ pos 0) (list_block_devs sys)) where
    list_devices-Completes : Completes n names (λ r. r ≡ pos 0) (list_devices sys (text "disk"))
    unfolding list_devices
    list_devices-Completes = Completes-within n names (omega arith) (append_nil names) (
        Completes-known (list_block_devs sys) _ (pos 0) listed (
          Completes-bind {Q = λ _. Unit {0}} (pure tt) _ (Completes-pure tt tt)
            (λ _ _. Completes-pure (pos 0) refl)))

    cmd_list-Completes : Completes n names (λ r. r ≡ pos 0) (cmd_list sys list_disk)
    unfolding cmd_list validate_subcommand
    cmd_list-Completes = Completes-within n names (omega arith) refl (
        Completes-known (lift (some (text "list"))) _ (text "list")
          (Completes-lift (some (text "list")) refl) list_devices-Completes)

    parse_cmd-Completes : Completes n names (λ r. r ≡ pos 0) (parse_cmd sys list_disk)
    unfolding strip_dashes find_command cmd_str run_handler
    parse_cmd-Completes =
        subst (Completes n names (λ r. r ≡ pos 0))
          (sym (parse_cmd-find_command sys list_disk (text "list") refl)) cmd_list-Completes

    handle_cmd-Completes : Completes (1 + n) names (λ r. r ≡ pos 0) (handle_cmd sys list_disk)
    unfolding handle_cmd report strip_dashes
    handle_cmd-Completes =
        Completes-within (1 + n) names (omega arith) (append_nil (names ++ []) ∙ append_nil names) (
          Completes-known (lift (some (text "list"))) _ (text "list")
            (Completes-lift (some (text "list")) refl)
            (Completes-known malloc _ true Completes-malloc (
              Completes-known _ _ (pos 0)
                (Completes-known _ _ (pos 0) parse_cmd-Completes (Completes-pure (pos 0) refl))
                (Completes-bind free _ Completes-free (λ _ _. Completes-pure (pos 0) refl)))))

    main-Completes : Completes (1 + n) names (λ r. r ≡ 0) (main sys list_disk)
    unfolding main
    main-Completes = Completes-within (1 + n) names (omega arith) (append_nil names) (
        Completes-known (handle_cmd sys list_disk) _ (pos 0) handle_cmd-Completes (
          Completes-bind {Q = λ _. Unit {0}} (pure tt) _ (Completes-pure tt tt)
            (λ _ _. Completes-pure 0 refl)))

  -- With the arguments list and disk, where /sys/block can be read, the names of its disks have at
  -- most 250 characters, the attributes that the program reads of them have a line without %, and
  -- more calls of malloc succeed than there are disks to list, main is defined, exits with 0, and
  -- prints exactly one row for each disk.
  pub main-list_disk :
      (es : List Dirent) (w : World)
      → sys.directory sysfs_block_path ≡ some es
      → All (IsBlockReadable sys) es
      → structures_needed sys es < w.budget
      → (w' : World) × ((main sys list_disk w ≡ some (0, w'))
          × (printed_rows w'.out ≡ printed_rows w.out ++ disks_listed sys es))
  main-list_disk es w dir h memory = go (main sys list_disk w) (
      (main-Completes (structures_needed sys es) (disks_listed sys es)
          (list_block_devs-Completes sys es dir h)).at
        w (omega (arith, memory)))
    where
      go :
          (o : Option (ℕ × World))
          → Done (1 + structures_needed sys es) (disks_listed sys es) (λ r. r ≡ 0) w o
          → (w' : World) × ((o ≡ some (0, w'))
              × (printed_rows w'.out ≡ printed_rows w.out ++ disks_listed sys es))
      go none d = absurd d
      go (some (r, w')) d = (w', (ap (λ k. some (k, w')) d.0, d.1.1))
