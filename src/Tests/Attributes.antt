-- ===== src/Tests/Attributes.antt =====
-- The theorems on attributes, whole commands and iSCSI hosts, at concrete inputs.
use scsi_cli.Prelude.{
  [], arith, false, if◌then◌else◌, none, pos, refl, some, text, true, ◌-◌, ◌^◌, ◌∷◌, ◌≡◌,
}
use scsi_cli.Attribute.{read_u64}
use scsi_cli.Attribute.RoundTrip.{read_u64-decimal}
use scsi_cli.Clib.Compare.{strcmp_eq}
use scsi_cli.Clib.Printf.{decimal}
use scsi_cli.Cmd.Completes.{list_disk, main-list_disk}
use scsi_cli.Cmd.Main.{main}
use scsi_cli.Device.Iscsi.{zero_iscsi_device}
use scsi_cli.Disk.Fails.{list_cdrom_devs_undefined}
use scsi_cli.Disk.Lists.{list_cdrom_devs}
use scsi_cli.Fibre.Fails.{list_fc_adapters_undefined}
use scsi_cli.Fibre.Port.{first_driver}
use scsi_cli.Fibre.Ports.{list_fc_adapters}
use scsi_cli.Iscsi.Info.{get_iscsi_info}
use scsi_cli.Iscsi.Info.Keeps.{Keeps-get_iscsi_info}
use scsi_cli.Sysfs.{load_sysfs_path}
use scsi_cli.Sysfs.RoundTrip.{load_sysfs_path-line}
use scsi_cli.Tests.{dirent, fresh_world, small_system}
use scsi_cli.Tests.Disks.{disk_system, three_disks, three_readable}
use scsi_cli.World.{System, World}
use scsi_cli.World.Completes.{printed_rows}
use scsi_cli.World.Keeps.{Keeps}

main-list_disk_example :
    (w' : World) × ((main disk_system
          (list_disk disk_system (text "scli"))
          (record fresh_world { budget = 4 })
        ≡ some (0, w'))
      × (printed_rows w'.out ≡ text "sda" ∷ text "sdb" ∷ text "nvme0n1" ∷ []))
main-list_disk_example =
    main-list_disk disk_system (text "scli") three_disks (record fresh_world { budget = 4 }) refl
      three_readable (omega arith)

-- A CD-ROM device after two other entries.
abbrev cdrom_system : System
cdrom_system = record small_system {
  directory = λ path.
      if strcmp_eq path (text "/dev")
      then some
          (dirent "." true ∷ dirent "sda" false ∷ dirent "sr0" false ∷ dirent "tty" false ∷ [])
      else none;
}

list_cdrom_devs_undefined_example : list_cdrom_devs cdrom_system fresh_world ≡ none
list_cdrom_devs_undefined_example =
    list_cdrom_devs_undefined cdrom_system (dirent "." true ∷ dirent "sda" false ∷ [])
      (dirent "sr0" false) (dirent "tty" false ∷ []) fresh_world refl (refl, (refl, tt)) refl refl
      (omega arith)

Keeps-get_iscsi_info_example :
    Keeps
      (get_iscsi_info small_system (record zero_iscsi_device { host_name = some (text "host3") }))
Keeps-get_iscsi_info_example =
    Keeps-get_iscsi_info small_system (record zero_iscsi_device { host_name = some (text "host3") })

-- The largest number, and zero after it.
abbrev number_system : System
number_system = record small_system { file = λ path. some (text "18446744073709551615\n0\n") }

read_u64-decimal_example :
    read_u64 number_system 64 (text "/sys/block/sda/size") ≡ some (2 ^ 64 - 1)
unfolding decimal
read_u64-decimal_example =
    read_u64-decimal number_system 64 (2 ^ 64 - 1) (text "/sys/block/sda/size") (text "0\n")
      (omega arith) (omega arith) refl

load_sysfs_path-line_example :
    load_sysfs_path small_system (text "/sys/block/sda/device/model") 64
    ≡ (pos 0, some (text "DISK"))
load_sysfs_path-line_example =
    load_sysfs_path-line small_system (text "/sys/block/sda/device/model") (text "DISK") 64 refl

-- A Fibre Channel host, and drivers of which the program knows none.
abbrev fabric_system : System
fabric_system = record small_system {
  directory = λ path.
      if strcmp_eq path (text "/sys/class/fc_host")
      then some (dirent "." true ∷ dirent ".." true ∷ dirent "host7" true ∷ [])
      else if strcmp_eq path (text "/sys/bus/pci/drivers")
      then some (dirent "." true ∷ dirent "bfa" true ∷ [])
      else none;
}

list_fc_adapters_undefined_example : list_fc_adapters fabric_system fresh_world ≡ none
unfolding first_driver
list_fc_adapters_undefined_example =
    list_fc_adapters_undefined fabric_system (dirent "." true ∷ dirent ".." true ∷ [])
      (dirent "host7" true) [] fresh_world refl (refl, (refl, tt)) refl refl (omega arith)
