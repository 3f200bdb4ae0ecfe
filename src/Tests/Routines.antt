-- ===== src/Tests/Routines.antt =====
-- The theorems on single routines at concrete inputs.
use mathlib.Core.Option
use scsi_cli.Prelude.{
  All, List, Text, [], arith, enodev, false, if_null, if◌then◌else◌, length, none, pos, refl, some,
  text, true, ℤ, ◌++◌, ◌+◌, ◌/◌, ◌<◌, ◌==◌, ◌^◌, ◌∷◌, ◌≡◌, ◌≢◌, ◌≤◌, ◌⊎◌,
}
use scsi_cli.Attribute.{entry_path, read_int, read_string, read_text, read_u64}
use scsi_cli.Clib.Compare.{strcmp_eq}
use scsi_cli.Clib.Printf.{snprintf_format}
use scsi_cli.Device.Disk.{ScsiDeviceInfo, zero_scsi_device}
use scsi_cli.Device.Fibre.{zero_fc_device}
use scsi_cli.Disk.Correct.{store_type_name_lem, type_path_truncated}
use scsi_cli.Disk.Enclosure.{type_path}
use scsi_cli.Disk.Found.{found_once, show_disk_details-found_once}
use scsi_cli.Disk.Info.{store_type_name}
use scsi_cli.Disk.Show.{show_disk_details}
use scsi_cli.Disk.Types.{dev_type_to_dev_name}
use scsi_cli.Fibre.Correct.{count_rports_lem, rports}
use scsi_cli.Fibre.Hosts.{host_count, list_fc_adapters-host_count}
use scsi_cli.Fibre.Leak.{list_rport_adapters_leak, one_rport}
use scsi_cli.Fibre.Port.{count_rports}
use scsi_cli.Fibre.Ports.{list_fc_adapters, list_rport_adapters}
use scsi_cli.Loop.Counts.{total, undotted}
use scsi_cli.Print.{calculate_size, remove_newline, remove_space}
use scsi_cli.Print.Correct.{
  begins_with_two_spaces, calculate_size_lem, remove_newline_lem, remove_space_lem,
}
use scsi_cli.Sysfs.{find_hctl, get_device_count, open_sysfs_stats_file, store_hctl}
use scsi_cli.Sysfs.Correct.{
  find_hctl_lem, first_hctl, get_device_count_lem, open_sysfs_stats_file_lem,
}
use scsi_cli.Tests.{dirent, fresh_world, small_system}
use scsi_cli.World.{Dirent, System, ◌>>=◌}
use scsi_cli.World.Keeps.{Ends}
use scsi_cli.World.Returns.{Gives}

calculate_size_lem_example :
    ((5000 ≤ 1024) × (calculate_size 5000 ≡ (5000, 0)))
    ⊎ (((1024 < 5000) × ((5000 < 2 ^ 20) × (calculate_size 5000 ≡ (5000 / 2 ^ 10, 1))))
        ⊎ (((2 ^ 20 ≤ 5000) × ((5000 < 2 ^ 30) × (calculate_size 5000 ≡ (5000 / 2 ^ 20, 2))))
            ⊎ (((2 ^ 30 ≤ 5000) × ((5000 < 2 ^ 40) × (calculate_size 5000 ≡ (5000 / 2 ^ 30, 3))))
                ⊎ ((2 ^ 40 ≤ 5000) × (calculate_size 5000 ≡ (5000 / 2 ^ 40, 4))))))
calculate_size_lem_example = calculate_size_lem 5000

remove_newline_lem_example :
    All (λ c. (c == b'\n') ≡ false) (remove_newline (text "ab\nc"))
    × ((text "ab\nc" ≡ remove_newline (text "ab\nc"))
        ⊎ ((t : Text) × (text "ab\nc" ≡ remove_newline (text "ab\nc") ++ (b'\n' ∷ t))))
remove_newline_lem_example = remove_newline_lem (text "ab\nc")

remove_space_lem_example :
    remove_space (text "  Online")
    ≡ (if begins_with_two_spaces (text "  Online") then none else some (text "  Online"))
remove_space_lem_example =
    remove_space_lem (text "  Online")
      (refl, (refl, (refl, (refl, (refl, (refl, (refl, (refl, tt)))))))) (omega arith)

remove_space_test :
    (remove_space (text "  Online") ≡ none)
    × (remove_space (text " Online") ≡ some (text " Online"))
unfolding remove_space
remove_space_test = (refl, refl)

open_sysfs_stats_file_lem_example :
    if_null
      (open_sysfs_stats_file small_system (text "/sys/block/sda/device/model"))
      Unit
      (λ s. (length s ≤ 63) × All (λ c. (c == b'\n') ≡ false) s)
open_sysfs_stats_file_lem_example =
    open_sysfs_stats_file_lem small_system (text "/sys/block/sda/device/model")

get_device_count_lem_example :
    get_device_count small_system (text "/sys/class/iscsi_host")
    ≡ (if 1 == 0 then enodev else pos 1)
get_device_count_lem_example =
    get_device_count_lem small_system (text "/sys/class/iscsi_host")
      (dirent "." true ∷ dirent ".." true ∷ dirent "host3" true ∷ []) 1 refl refl

abbrev numbered : List Dirent
numbered = dirent "2:0" true ∷ dirent "1:0:0:0" false ∷ dirent "1:0:3:7" true ∷ []

find_hctl_lem_example :
    if_null
      (first_hctl numbered)
      ((find_hctl numbered zero_scsi_device).0 ≡ false)
      (λ v. find_hctl numbered zero_scsi_device ≡ (true, store_hctl v zero_scsi_device))
find_hctl_lem_example = find_hctl_lem numbered zero_scsi_device

store_type_name_lem_example :
    store_type_name (record zero_scsi_device { device_type = pos 5 })
    ≡ some
        (record zero_scsi_device { device_type = pos 5; disk_type = dev_type_to_dev_name (pos 5) })
store_type_name_lem_example = store_type_name_lem (record zero_scsi_device { device_type = pos 5 })

type_path_truncated_example :
    let disk_path = entry_path 128 (text "/sys/class/enclosure") (text "0:0:8:0") in
    type_path disk_path ≢ disk_path ++ text "/device/type"
type_path_truncated_example = type_path_truncated (text "0:0:8:0")

count_rports_lem_example :
    count_rports
      ((dirent "rport-1:0-0" true ∷ []) ++ (dirent "power" true ∷ dirent "rport-1:0-1" true ∷ []))
      0
      (pos 0)
    ≡ pos (0 + rports (dirent "rport-1:0-0" true ∷ []))
count_rports_lem_example =
    count_rports_lem (dirent "rport-1:0-0" true ∷ []) (dirent "rport-1:0-1" true ∷ [])
      (dirent "power" true) 0 (pos 0) (refl, refl) (refl, tt)

-- Two Fibre Channel hosts with a qla2xxx driver; every attribute can be read.
abbrev host_entries : List Dirent
host_entries = dirent "." true ∷ dirent "host1" true ∷ dirent "host2" true ∷ []

abbrev two_hosts : System
two_hosts = record small_system {
  file = λ path. some (text "0\n");
  directory = λ path.
      if strcmp_eq path (text "/sys/class/fc_host")
      then some host_entries
      else if strcmp_eq path (text "/sys/bus/pci/drivers")
      then some (dirent "qla2xxx" true ∷ [])
      else none;
}

list_fc_adapters-host_count_example :
    Gives (λ r. r ≡ host_count host_entries 3) (list_fc_adapters two_hosts fresh_world)
list_fc_adapters-host_count_example =
    list_fc_adapters-host_count two_hosts host_entries fresh_world refl

-- The run of the theorem above, and the run with memory for one host only.
list_fc_adapters_test :
    (Option.map (λ r. r.0) (list_fc_adapters two_hosts fresh_world) ≡ some (pos 2))
    × (Option.map (λ r. r.0) (list_fc_adapters two_hosts (record fresh_world { budget = 1 }))
        ≡ some enodev)
unfolding list_fc_adapters ◌>>=◌ open_sysfs_stats_file
list_fc_adapters_test = (refl, refl)

-- Two disks; every attribute can be read.
abbrev disk_entries : List Dirent
disk_entries = dirent "." true ∷ dirent "sda" true ∷ dirent "sdb" true ∷ []

abbrev two_disks : System
two_disks = record small_system {
  file = λ path. some (text "0\n");
  directory = λ path. if strcmp_eq path (text "/sys/block") then some disk_entries else none;
}

show_disk_details-found_once_example :
    Gives
      (λ (r : ℤ × ScsiDeviceInfo). r.0 ≡ found_once (text "sda") disk_entries)
      (show_disk_details two_disks (text "sda") zero_scsi_device fresh_world)
unfolding snprintf_format
show_disk_details-found_once_example =
    show_disk_details-found_once two_disks (text "sda") (text "sda") zero_scsi_device disk_entries
      fresh_world refl refl

-- The run of the theorem above, and the run on a name with which both disks begin.
show_disk_details_test :
    (Option.map (λ r. r.0.0) (show_disk_details two_disks (text "sda") zero_scsi_device fresh_world)
      ≡ some (pos 1))
    × (Option.map
          (λ r. r.0.0)
          (show_disk_details two_disks (text "sd") zero_scsi_device fresh_world)
        ≡ some enodev)
unfolding show_disk_details ◌>>=◌ read_text open_sysfs_stats_file read_int read_u64 read_string
show_disk_details_test = (refl, refl)

abbrev one_port : System
one_port = record small_system {
  file = λ path. some (text "0x500\n");
  directory = λ path.
      if strcmp_eq path (text "/sys/class/fc_host/host1/device")
      then some (dirent ".." true ∷ dirent "rport-1:0-0" true ∷ dirent "power" true ∷ [])
      else none;
}

list_rport_adapters_leak_example :
    Ends
      (λ w'.
        w'.live
        ≡ fresh_world.live
          + total
              (undotted one_rport)
              (dirent ".." true ∷ dirent "rport-1:0-0" true ∷ dirent "power" true ∷ []))
      (list_rport_adapters one_port
        (record zero_fc_device { sys_dev_path = some (text "/sys/class/fc_host/host1") })
        fresh_world)
list_rport_adapters_leak_example =
    list_rport_adapters_leak one_port
      (record zero_fc_device { sys_dev_path = some (text "/sys/class/fc_host/host1") })
      (text "/sys/class/fc_host/host1")
      (dirent ".." true ∷ dirent "rport-1:0-0" true ∷ dirent "power" true ∷ []) refl refl
      fresh_world
