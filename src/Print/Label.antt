-- ===== src/Print/Label.antt =====
-- scsi_print.c: the label of a table.
use scsi_cli.Prelude.{Option, Text, [], some, ◌∷◌}
use scsi_cli.Clib.Format.{all_of, arg_s, printf}
use scsi_cli.Print.{dash}

-- print_command_label
unfoldable pub print_command_label : Text → Option Text
print_command_label title = all_of (
    printf "\nDisplaying All %s devices on the system.\n" (arg_s (some title) ∷ [])
    ∷ printf "%-.64s\n" (arg_s (some dash) ∷ [])
    ∷ [])
