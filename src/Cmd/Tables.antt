-- ===== src/Cmd/Tables.antt =====
-- scsi_test.c: the tables of commands and sub-commands, and the checks against them.
use scsi_cli.Prelude.{
  Bool, List, Option, Text, [], eagain, enoent, false, if_null, if◌then◌else◌, none, pos, some,
  text, ℤ, ◌&&◌, ◌==◌, ◌||◌, ◌∷◌,
}
use scsi_cli.Clib.Compare.{strcmp_eq}
use scsi_cli.Device.{subcommands}
use scsi_cli.World.{M, emit, shown}

-- The functions that cmd_str points to.
pub data Handler : Type 0 where
  alias errors list online offline reset stats show scan : Handler

-- cmd_str: name, function, description
unfoldable pub cmd_str : List (Text × (Handler × Text))
cmd_str =
    (text "alias", (Handler.alias, text "Create handy alias for disk, adater, controller"))
    ∷ (text "errors", (Handler.errors, text "Show errors for a device"))
    ∷ (text "list", (Handler.list, text "List all device on this host"))
    ∷ (text "online", (Handler.online, text "Change device state to online"))
    ∷ (text "offline", (Handler.offline, text "Change device state to offline"))
    ∷ (text "reset", (Handler.reset, text "Reset a device"))
    ∷ (text "stats", (Handler.stats, text "Show statistics of a device"))
    ∷ (text "show", (Handler.show, text "Show details"))
    ∷ (text "scan", (Handler.scan, text "Scan a system for device"))
    ∷ []

-- sub_cmd_str: command, sub-command, description
unfoldable pub sub_cmd_str : List (Text × (Text × Text))
sub_cmd_str =
    (text "list", (text "cd-rom", text "List CD-ROM devices from the host"))
    ∷ (text "list", (text "tape", text "List Tape devices from the host"))
    ∷ (text "list", (text "medium-changer", text "List Medium Changer devices from the host"))
    ∷ (text "list", (text "enclosure", text "List Enclosure devices from the host"))
    ∷ (text "list", (text "fc_hba", text "List Fiber Channel HBA instlled"))
    ∷ (text "list", (text "iscsi", text "List iSCSI Sessions"))
    ∷ (text "list", (text "disk", text "List disks from the host"))
    ∷ (text "list", (text "controller", text "List disk controllers from the host"))
    ∷ (text "list", (text "generic", text "List generic disk from the host"))
    ∷ (text "list", (text "multipath", text "List multipath disk from the host"))
    ∷ (text "show", (text "disk", text "Show details of a disk"))
    ∷ (text "show", (text "fc_port", text "show details of an fc port"))
    ∷ (text "show", (text "iscsi", text "show details of an iscsi host"))
    ∷ (text "scan", (text "block", text "Rescan system for block devices"))
    ∷ (text "scan", (text "fc_hba", text "Rescan system for FC adapters"))
    ∷ (text "reset", (text "adapter", text "Reset a given adapter"))
    ∷ (text "reset", (text "port", text "Reset a port"))
    ∷ (text "reset", (text "issue_logo", text "force device to issue logout"))
    ∷ (text "reset", (text "issue_lip", text "Issue Loop Initialization Primitive"))
    ∷ (text "stats", (text "disk", text "Show statistics for block device"))
    ∷ (text "stats", (text "fc_port", text "Show statistics for Fiber Channel port"))
    ∷ []

-- The first loop of several functions: the row of a command.
unfoldable pub find_command : Text → List (Text × (Handler × Text)) → Option Handler
find_command cmd [] = none
find_command cmd ((name, (fn, desc)) ∷ rest) =
    if strcmp_eq cmd name then some fn else find_command cmd rest

-- validate_command
unfoldable pub validate_command : Text → ℤ
unfolding find_command cmd_str
validate_command cmd = if_null (find_command cmd cmd_str) (eagain) (λ _. pos 0)

unfoldable pub find_sub_command : Text → Text → List (Text × (Text × Text)) → Bool
find_sub_command cmd sub_cmd [] = false
find_sub_command cmd sub_cmd ((name, (sub_name, desc)) ∷ rest) =
    (strcmp_eq cmd name && strcmp_eq sub_cmd sub_name) || find_sub_command cmd sub_cmd rest

-- validate_subcommand, of argv[1] and argv[2]. Its first loop has no effect.
unfoldable pub validate_subcommand : Text → Text → ℤ
unfolding find_sub_command sub_cmd_str
validate_subcommand cmd sub_cmd = if find_sub_command cmd sub_cmd sub_cmd_str then pos 0 else enoent

-- The rows that list_subcommands prints.
unfoldable pub rows_of : Text → List (Text × (Text × Text)) → List (Text × Text)
rows_of cmd [] = []
rows_of cmd ((name, (sub_name, desc)) ∷ rest) =
    let more = rows_of cmd rest in if strcmp_eq cmd name then (sub_name, desc) ∷ more else more

-- list_subcommands: the headline is printed where there is a row.
unfoldable pub list_subcommands : Text → M (Unit {0})
unfolding rows_of sub_cmd_str
list_subcommands cmd = emit (shown (subcommands cmd (rows_of cmd sub_cmd_str)))

-- while (*str == '-') str++;
unfoldable pub strip_dashes : Text → Text
strip_dashes [] = []
strip_dashes (c ∷ s) = let rest = strip_dashes s in if c == b'-' then rest else c ∷ s
