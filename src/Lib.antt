-- ===== src/Lib.antt =====
-- scsi-cli: a command line tool that lists SCSI, NVMe, Fibre Channel and iSCSI devices of a Linux
-- host from sysfs, shows their details and statistics, and resets Fibre Channel hosts.
--
-- The parts of the program and the files that model them:
--   scsi_test.c         Cmd: the tables and the checks against them (Tables), list (List), show (Show),
--                       stats (Stats), reset (Reset), alias, errors, online, offline and scan
--                       (Requests), parse_cmd, handle_cmd and main (Main)
--   scsi_help.c         Cmd/Help for the functions of the commands, Print/Help for the text of the pages
--   scsi_trigger.c      Trigger
--   scsi_disk_utils.c   Disk: Types, Info, Queue, Nvme, Scsi, Stats, Lists, Enclosure, Show, Requests
--   scsi_fcp_utils.c    Fibre: Stats, Adapter, Info, Port, Ports, Requests
--   scsi_iscsi_utils.c  Iscsi: Attributes, Fill, Disks, Show, Info, Requests
--   scsi_sysfs_utils.c, scsi_utils.c   Sysfs
--   scsi_print.c        Print: the routines that change or compute a text; Tables, Details, Statistics,
--                       Fibre, Iscsi and Label: what the print routines print; Render: what a recorded
--                       call prints
--   scsi.h, scsi_fcp.h, scsi_iscsi.h   Device: the structures, field by field
--   utils.h             Loop: for_each_dir and the loops over readdir; Ring: the linked list
--
-- Beside the definitions of a part stand its proofs, in modules named for what they prove: Keeps
-- (what a run leaves as it was), Completes (runs that are defined, and the rows that they print),
-- Fails (runs that are not), Returns, Found and Hosts (what a run gives), RoundTrip and Counters
-- (texts that the kernel writes, read back), Correct, Dispatch, Known, Status, Writes, Leak,
-- Overflow, Refused, Fits and Unshown (formats and arguments). Tests has a small system, runs on
-- it, and the theorems at concrete inputs.
--
-- The list of utils.h is a memory of links from which every node is reached by its address
-- (Ring.Links). Ring/Segment has the stretches of a list, Ring/Distinct lists without repetition,
-- Ring/Edit and Ring/Delete what the three operations make of a list, Ring/Walk the loops,
-- Ring/Apart two lists in one memory, and Ring/Refines compares a series of operations with the
-- sequence that they stand for.
--
-- A definition has the name of the C function that it models. main calls handle_cmd, which calls
-- parse_cmd, which calls the function of a command; a command of list, show or stats calls the
-- routines of Disk, Fibre and Iscsi, which read sysfs through Sysfs and Attribute.
--
-- State. World counts the structures that malloc gave and free did not take back and the directory
-- streams that are open, and records what was printed and written; a budget says how many calls of
-- malloc succeed. System is the kernel's side: the files, directories and devices that the program
-- reads, and the bytes that malloc leaves in a structure that is not cleared. It is a parameter of
-- every definition that reads it, fixed during a run. A structure that C fills through a pointer is a
-- value that the routine returns. A run is World → Option (A × World); `none` is behaviour that the C
-- standard leaves undefined: a null pointer used, a buffer overrun, a format with a conversion that
-- has no argument. A null pointer that the program tests is `none` of an Option inside the run.
--
-- Clib models the functions of the C library that the program calls: strcmp, strncmp, snprintf and
-- sprintf into a buffer of a known size, fgets, strtol and strtoull with their ranges, and the two
-- formats of sscanf. Integers of the C type int are Prelude.Int.ℤ, 64-bit numbers are natural
-- numbers that wrap around where the code wraps. Format is printf for the conversions that the
-- program uses: the flags - and #, width, precision, `*` and the modifiers l and ll. It gives no
-- text where an argument is missing, or is of another kind or size than its conversion takes: text,
-- 32 bits, or 64 bits under l and ll. A signed and an unsigned number of one size are one kind; NULL
-- under %s prints (null), as glibc does. Memory is memmove inside one buffer.
--
-- Bounds. calculate_size runs its loop for at most four rounds, one for each unit above the byte, as
-- its bound in C does. decimal prints at most twenty digits, which hold every 64-bit number. The other
-- loops go over the entries of a directory, which readdir gives in a fixed order.
--
-- Loops over a list of utils.h run on fuel: the number of the nodes and one round more.
--
-- Not modelled: the arguments of printf in messages (an Event has the format), debug and trace output,
-- container_of and the loops of utils.h that hide it, strdup running out of memory, and the release of
-- the texts inside a structure.
pub mod Prelude
pub mod Clib
pub mod Device
pub mod World
pub mod Loop
pub mod Print
pub mod Ring
pub mod Sysfs
pub mod Attribute
pub mod Disk
pub mod Fibre
pub mod Iscsi
pub mod Trigger
pub mod Cmd
pub mod Tests
