-- ===== src/Cmd/Dispatch.antt =====
-- scsi_test.c: parse_cmd against a lookup in the table of commands.
use scsi_cli.Prelude.{
  All, Bool-cases, List, Option, Text, [], eagain, fun_ext, get_elem?, if_null, if◌then◌else◌, inl,
  inr, is_negative, none, pos, refl, some, ℤ, ◌∷◌, ◌≡◌,
}
use scsi_cli.Clib.Compare.{strcmp_eq, strcmp_eq→eq}
use scsi_cli.Cmd.List.{cmd_list}
use scsi_cli.Cmd.Main.{parse_cmd, run_command}
use scsi_cli.Cmd.Requests.{cmd_alias, cmd_errors, cmd_offline, cmd_online, cmd_scan}
use scsi_cli.Cmd.Reset.{cmd_reset}
use scsi_cli.Cmd.Show.{cmd_show}
use scsi_cli.Cmd.Stats.{cmd_stats}
use scsi_cli.Cmd.Tables.{Handler, cmd_str, find_command, strip_dashes, validate_command}
use scsi_cli.World.{M, System, World, pure, ◌>>=◌}

-- the function that a row of cmd_str points to
unfoldable pub run_handler : System → Handler → List Text → M ℤ
run_handler sys Handler.alias argv = cmd_alias argv
run_handler sys Handler.errors argv = cmd_errors argv
run_handler sys Handler.list argv = cmd_list sys argv
run_handler sys Handler.online argv = cmd_online argv
run_handler sys Handler.offline argv = cmd_offline argv
run_handler sys Handler.reset argv = cmd_reset sys argv
run_handler sys Handler.stats argv = cmd_stats sys argv
run_handler sys Handler.show argv = cmd_show sys argv
run_handler sys Handler.scan argv = cmd_scan argv

-- The name that is found has a property that every row has.
find_command-All :
    (P : Text → Handler → Type 0) (cmd : Text) (rows : List (Text × (Handler × Text)))
    → All (λ row. P row.0 row.1.0) rows
    → if_null (find_command cmd rows) Unit (P cmd)
unfolding find_command
find_command-All P cmd [] all = tt
find_command-All P cmd ((name, (fn, desc)) ∷ rest) (p, all) =
    elim (Bool-cases (strcmp_eq cmd name)) [
      | inl same ↦ rw (same, strcmp_eq→eq cmd name same) p
      | inr other ↦ rw other (find_command-All P cmd rest all)
    ]

module _ {A : Type 0} where
  rebuild : (o : Option (A × World)) → elim o [ none ↦ none | some (a, w) ↦ some (a, w) ] ≡ o
  rebuild none = refl
  rebuild (some r) = refl

  bind-pure : (m : M A) → m >>= pure ≡ m
  unfolding ◌>>=◌ pure
  bind-pure m = fun_ext λ w. rebuild (m w)

module _ (sys : System) (argv : List Text) where
  rows-run_handler : All (λ row. run_command sys row.0 argv ≡ run_handler sys row.1.0 argv) cmd_str
  unfolding cmd_str run_command run_handler ◌>>=◌
  rows-run_handler = (
    bind-pure _,
    (
      refl,
      (
        bind-pure _,
        (
          bind-pure _,
          (bind-pure _, (bind-pure _, (bind-pure _, (bind-pure _, (bind-pure _, tt))))),
        ),
      ),
    ),
  )

  -- For a command line with at least one word, parse_cmd looks that word up in cmd_str, without
  -- its leading dashes, and does exactly what the function of the row does; where no row has the
  -- name it returns -EAGAIN and does nothing.
  pub parse_cmd-find_command :
      (arg : Text)
      → get_elem? argv 1 ≡ some arg
      → parse_cmd sys argv
        ≡ if_null
            (find_command (strip_dashes arg) cmd_str)
            (pure eagain)
            (λ h. run_handler sys h argv)
  unfolding parse_cmd validate_command ◌>>=◌
  parse_cmd-find_command arg e = rw e (
      found (find_command cmd cmd_str) (
        find_command-All (λ name h. run_command sys name argv ≡ run_handler sys h argv) cmd cmd_str
          rows-run_handler))
    where
      cmd : Text
      cmd = strip_dashes arg

      found :
          (o : Option Handler)
          → if_null o Unit (λ h. run_command sys cmd argv ≡ run_handler sys h argv)
          → (if is_negative (if_null o eagain (λ _. pos 0))
              then pure (if_null o eagain (λ _. pos 0))
              else run_command sys cmd argv)
            ≡ if_null o (pure eagain) (λ h. run_handler sys h argv)
      found none h = refl
      found (some fn) h = h
