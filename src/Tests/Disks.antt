-- ===== src/Tests/Disks.antt =====
-- The theorems on disks, their counters and what is printed of them, at concrete inputs.
use scsi_cli.Prelude.{
  All, List, Text, [], arith, false, if◌then◌else◌, length, none, pos, refl, some, text, true, ℕ,
  ◌∷◌, ◌≡◌, ◌≤◌,
}
use scsi_cli.Clib.Compare.{strcmp_eq}
use scsi_cli.Clib.Format.{repeat}
use scsi_cli.Clib.Printf.{decimal}
use scsi_cli.Clib.Scan.RoundTrip.{hctl_name}
use scsi_cli.Clib.Stdio.{fgets}
use scsi_cli.Cmd.Counters.{main-stats_disk, stats_of_disk}
use scsi_cli.Cmd.Main.{main}
use scsi_cli.Device.{disk_info, disk_stats}
use scsi_cli.Device.Disk.{zero_scsi_device}
use scsi_cli.Device.Queue.{DiskStats, zero_disk_stats}
use scsi_cli.Disk.Completes.{IsReadable}
use scsi_cli.Disk.Completes.Block.{list_block_devs-lists_disks}
use scsi_cli.Disk.Completes.Rounds.{IsBlockReadable, IsNvmeReadable, IsScsiReadable}
use scsi_cli.Disk.Lists.{list_block_devs, sysfs_block_path}
use scsi_cli.Disk.Stats.{get_disk_stats}
use scsi_cli.Disk.Stats.RoundTrip.{AreU64, get_disk_stats-counters, printed_counters}
use scsi_cli.Print.{remove_newline}
use scsi_cli.Print.Details.{print_scsi_disk_details}
use scsi_cli.Print.Fits.{IsPrinted, render-IsPrinted}
use scsi_cli.Print.Render.{render}
use scsi_cli.Print.Unshown.{print_scsi_disk_details-soft_threshold}
use scsi_cli.Sysfs.{get_hctl_info, open_sysfs_stats_file}
use scsi_cli.Sysfs.RoundTrip.{get_hctl_info-hctl_name, named_entries}
use scsi_cli.Tests.{dirent, fresh_world, small_system}
use scsi_cli.World.{Dirent, System, World, shown}
use scsi_cli.World.Completes.{printed_rows}

-- Two disks whose attributes can all be read.
abbrev pub three_disks : List Dirent
three_disks =
    dirent "." true
    ∷ dirent ".." true
    ∷ dirent "sda" true
    ∷ dirent "nvme0n1" true
    ∷ dirent "loop0" true
    ∷ dirent "sdb" true
    ∷ []

abbrev pub disk_system : System
disk_system = record small_system {
  file = λ path. some (text "0\n");
  directory = λ path. if strcmp_eq path sysfs_block_path then some three_disks else none;
}

readable : (path : Text) → IsReadable disk_system path
unfolding open_sysfs_stats_file fgets remove_newline
readable path = (refl, tt)

scsi_readable : (name : Text) → length name ≤ 250 → IsScsiReadable disk_system name
scsi_readable name h = record {
  short_name = h;
  type = readable _;
  vendor = readable _;
  model = readable _;
  rev = readable _;
}

nvme_readable : (name : Text) → length name ≤ 250 → IsNvmeReadable disk_system name
nvme_readable name h = record { short_name = h; model = readable _; firmware_rev = readable _ }

block_readable : (e : Dirent) → length e.d_name ≤ 250 → IsBlockReadable disk_system e
block_readable e h = (λ _. scsi_readable e.d_name h, λ _. nvme_readable e.d_name h)

pub three_readable : All (IsBlockReadable disk_system) three_disks
three_readable = (
  block_readable (dirent "." true) (omega arith),
  (
    block_readable (dirent ".." true) (omega arith),
    (
      block_readable (dirent "sda" true) (omega arith),
      (
        block_readable (dirent "nvme0n1" true) (omega arith),
        (
          block_readable (dirent "loop0" true) (omega arith),
          (block_readable (dirent "sdb" true) (omega arith), tt),
        ),
      ),
    ),
  ),
)

list_block_devs-lists_disks_example :
    (w' : World) × ((list_block_devs disk_system fresh_world ≡ some (pos 0, w'))
      × (printed_rows w'.out ≡ text "sda" ∷ text "sdb" ∷ text "nvme0n1" ∷ []))
list_block_devs-lists_disks_example =
    list_block_devs-lists_disks disk_system three_disks fresh_world refl three_readable
      (omega arith)

-- The statistics of a disk: ten counters, then some that newer kernels add.
abbrev stat_system : System
stat_system = record small_system {
  file = λ path.
      if strcmp_eq path (text "/sys/block/sda/stat")
      then some (text " 100 7 8000   21 2 3 4 5 6 7 0 0\nmore")
      else none;
}

abbrev stat_fields : List (ℕ × ℕ)
stat_fields =
    (1, 100)
    ∷ (0, 7)
    ∷ (0, 8000)
    ∷ (2, 21)
    ∷ (0, 2)
    ∷ (0, 3)
    ∷ (0, 4)
    ∷ (0, 5)
    ∷ (0, 6)
    ∷ (0, 7)
    ∷ []

abbrev sda_stats : DiskStats
sda_stats = record zero_disk_stats {
  ios = (100, 2);
  merges = (7, 3);
  sectors = (8000, 4);
  ticks = (21, 5);
  io_ticks = 6;
  time_in_queue = 7;
}

sda_counters : AreU64 (printed_counters sda_stats)
sda_counters = (
  omega arith,
  (
    omega arith,
    (
      omega arith,
      (
        omega arith,
        (
          omega arith,
          (omega arith, (omega arith, (omega arith, (omega arith, (omega arith, tt))))),
        ),
      ),
    ),
  ),
)

get_disk_stats-counters_example :
    get_disk_stats stat_system zero_scsi_device (text "sda") fresh_world
    ≡ some ((pos 0, record zero_scsi_device { dstat = sda_stats }), fresh_world)
unfolding repeat decimal
get_disk_stats-counters_example =
    get_disk_stats-counters stat_system zero_scsi_device (text "sda") fresh_world false stat_fields
      (text " 0 0") (text "more") sda_stats refl sda_counters (refl, (refl, (refl, (refl, tt))))
      refl (omega arith) (omega arith) refl

abbrev hctl_system : System
hctl_system = record small_system {
  directory = λ path. some (named_entries (hctl_name 2 0 10 31) []);
}

get_hctl_info-hctl_name_example :
    get_hctl_info hctl_system zero_scsi_device fresh_world
    ≡ some (
      (pos 0, record zero_scsi_device { host = pos 2; bus = pos 0; target = pos 10; lun = pos 31 }),
      fresh_world,
    )
get_hctl_info-hctl_name_example =
    get_hctl_info-hctl_name hctl_system zero_scsi_device fresh_world [] 2 0 10 31 (omega arith)
      (omega arith) (omega arith) (omega arith) refl

render-IsPrinted_example : IsPrinted (render (disk_info zero_scsi_device))
render-IsPrinted_example = render-IsPrinted (disk_info zero_scsi_device)

print_scsi_disk_details-soft_threshold_example :
    print_scsi_disk_details (record zero_scsi_device { evt_soft_threshold_reached = pos 1 })
    ≡ print_scsi_disk_details zero_scsi_device
print_scsi_disk_details-soft_threshold_example =
    print_scsi_disk_details-soft_threshold zero_scsi_device (pos 1)

main-stats_disk_example :
    main stat_system (stats_of_disk stat_system (text "scli") (text "sda")) fresh_world
    ≡ some
        (0, record fresh_world { budget = 1; out = shown (disk_stats sda_stats (text "sda")) ∷ [] })
unfolding repeat decimal
main-stats_disk_example =
    main-stats_disk stat_system (text "scli") (text "sda") 1 fresh_world false stat_fields
      (text " 0 0") (text "more") sda_stats (omega arith) refl refl refl sda_counters
      (refl, (refl, (refl, (refl, tt)))) refl (omega arith) refl
