-- ===== src/Print/Tables.antt =====
-- scsi_print.c: the tables of disks and enclosures.
use scsi_cli.Prelude.{Option, Text, [], some, text, ◌∷◌}
use scsi_cli.Clib.Format.{all_of, arg_d, arg_s, arg_u32, printf}
use scsi_cli.Device.Disk.{ScsiDeviceInfo}
use scsi_cli.Print.{dash}

-- print_mpath_disk_header
unfoldable pub print_mpath_disk_header : Option Text
print_mpath_disk_header = all_of (
    printf "\n" []
    ∷ printf "%-12s\t%-5s\t%-5s\t%-8s\t%-24s\n" (
        arg_s (some (text "BUS ID"))
        ∷ arg_s (some (text "Major"))
        ∷ arg_s (some (text "Minor"))
        ∷ arg_s (some (text "Disk Name"))
        ∷ arg_s (some (text "Device Path"))
        ∷ [])
    ∷ printf "%-.12s\t%-.5s\t%-.5s\t%-.8s\t%-.24s\n" (
        arg_s (some dash)
        ∷ arg_s (some dash)
        ∷ arg_s (some dash)
        ∷ arg_s (some dash)
        ∷ arg_s (some dash)
        ∷ [])
    ∷ [])

-- print_mpath_disk_info
unfoldable pub print_mpath_disk_info : ScsiDeviceInfo → Option Text
print_mpath_disk_info d = all_of (
    printf "[%d:%d:%d:%d]\t%-5d\t%-5d\t%-8s\t%-24s\n" (
      arg_d d.host
      ∷ arg_d d.bus
      ∷ arg_d d.target
      ∷ arg_d d.lun
      ∷ arg_u32 d.major
      ∷ arg_u32 d.minor
      ∷ arg_s d.disk_name
      ∷ arg_s d.disk_path
      ∷ [])
    ∷ [])

-- print_generic_disk_header
unfoldable pub print_generic_disk_header : Option Text
print_generic_disk_header = all_of (
    printf "\n" []
    ∷ printf "%-12s\t%-5s\t%-5s\t%-16s\t%-8s\t%-24s\n" (
        arg_s (some (text "BUS ID "))
        ∷ arg_s (some (text "Major"))
        ∷ arg_s (some (text "Minor"))
        ∷ arg_s (some (text "Disk Type"))
        ∷ arg_s (some (text "Disk Name"))
        ∷ arg_s (some (text "Device Path"))
        ∷ [])
    ∷ printf "%-.12s\t%-.5s\t%-.5s\t%-.16s\t%-.8s\t%-.24s\n" (
        arg_s (some dash)
        ∷ arg_s (some dash)
        ∷ arg_s (some dash)
        ∷ arg_s (some dash)
        ∷ arg_s (some dash)
        ∷ arg_s (some dash)
        ∷ [])
    ∷ [])

-- print_generic_disk_info
unfoldable pub print_generic_disk_info : ScsiDeviceInfo → Option Text
print_generic_disk_info d = all_of (
    printf "[%d:%d:%d:%d]\t%-5d\t%-5d\t%-16s\t%-8s\t%-24s\n" (
      arg_d d.host
      ∷ arg_d d.bus
      ∷ arg_d d.target
      ∷ arg_d d.lun
      ∷ arg_u32 d.major
      ∷ arg_u32 d.minor
      ∷ arg_s (some d.disk_type)
      ∷ arg_s d.disk_name
      ∷ arg_s d.disk_path
      ∷ [])
    ∷ [])

-- print_disk_header
unfoldable pub print_disk_header : Option Text
print_disk_header = all_of (
    printf "\n" []
    ∷ printf "%-12s\t%-16s\t%-16s\t%-8s\t%-5s\t%-5s\t%-16s\t%-8s\t%-24s\n" (
        arg_s (some (text "BUS ID      "))
        ∷ arg_s (some (text "Vendor"))
        ∷ arg_s (some (text "Model"))
        ∷ arg_s (some (text "Revision"))
        ∷ arg_s (some (text "Major"))
        ∷ arg_s (some (text "Minor"))
        ∷ arg_s (some (text "Disk Type"))
        ∷ arg_s (some (text "Disk Name"))
        ∷ arg_s (some (text "Device Path"))
        ∷ [])
    ∷ printf "%-.12s\t%-.16s\t%-.16s\t%-.8s\t%-.5s\t%-.5s\t%-.16s\t%-.8s\t%-.24s\n" (
        arg_s (some dash)
        ∷ arg_s (some dash)
        ∷ arg_s (some dash)
        ∷ arg_s (some dash)
        ∷ arg_s (some dash)
        ∷ arg_s (some dash)
        ∷ arg_s (some dash)
        ∷ arg_s (some dash)
        ∷ arg_s (some dash)
        ∷ [])
    ∷ [])

-- print_disk_info
unfoldable pub print_disk_info : ScsiDeviceInfo → Option Text
print_disk_info d = all_of (
    printf "[%d:%d:%d:%d]\t%-16s\t%-8s\t%-8s\t%-5d\t%-5d\t%-16s\t%-8s\t%-24s\n" (
      arg_d d.host
      ∷ arg_d d.bus
      ∷ arg_d d.target
      ∷ arg_d d.lun
      ∷ arg_s d.vendor
      ∷ arg_s d.model
      ∷ arg_s d.rev
      ∷ arg_u32 d.major
      ∷ arg_u32 d.minor
      ∷ arg_s (some d.disk_type)
      ∷ arg_s d.disk_name
      ∷ arg_s d.disk_path
      ∷ [])
    ∷ [])

-- print_nvme_disk_header
unfoldable pub print_nvme_disk_header : Option Text
print_nvme_disk_header = all_of (
    printf "\n" []
    ∷ printf "%-12s\t%-32s\t%-12s\t%-5s\t%-5s\t%-16s\t%-8s\t%-24s\n" (
        arg_s (some (text "BUS ID      "))
        ∷ arg_s (some (text "Model "))
        ∷ arg_s (some (text "Revision"))
        ∷ arg_s (some (text "Major"))
        ∷ arg_s (some (text "Minor"))
        ∷ arg_s (some (text "Disk Type"))
        ∷ arg_s (some (text "Disk Name"))
        ∷ arg_s (some (text "Device Path"))
        ∷ [])
    ∷ printf "%-.12s\t%-.32s\t%-.12s\t%-.5s\t%-.5s\t%-.16s\t%-.8s\t%-.24s\n" (
        arg_s (some dash)
        ∷ arg_s (some dash)
        ∷ arg_s (some dash)
        ∷ arg_s (some dash)
        ∷ arg_s (some dash)
        ∷ arg_s (some dash)
        ∷ arg_s (some dash)
        ∷ arg_s (some dash)
        ∷ [])
    ∷ [])

-- print_nvme_disk_info
unfoldable pub print_nvme_disk_info : ScsiDeviceInfo → Option Text
print_nvme_disk_info d = all_of (
    printf "[N:%d:%d:%d]\t%-32s\t%-12s\t%5d\t%5d\t%-16s\t%-8s\t%-24s\n" (
      arg_d d.bus
      ∷ arg_d d.target
      ∷ arg_d d.lun
      ∷ arg_s d.model
      ∷ arg_s d.rev
      ∷ arg_u32 d.major
      ∷ arg_u32 d.minor
      ∷ arg_s (some d.disk_type)
      ∷ arg_s d.disk_name
      ∷ arg_s d.disk_path
      ∷ [])
    ∷ [])

-- print_enclosure_header
unfoldable pub print_enclosure_header : Option Text
print_enclosure_header = all_of (
    printf "\n" []
    ∷ printf "%-12s\t%-16s\t%-16s\t%-16s\t%-16s\n" (
        arg_s (some (text " BUS ID"))
        ∷ arg_s (some (text "Vendor"))
        ∷ arg_s (some (text "Model"))
        ∷ arg_s (some (text "Device Type"))
        ∷ arg_s (some (text "Device Path"))
        ∷ [])
    ∷ printf "%-.12s\t%-.16s\t%-.16s\t%-.16s\t%-.16s\n" (
        arg_s (some dash)
        ∷ arg_s (some dash)
        ∷ arg_s (some dash)
        ∷ arg_s (some dash)
        ∷ arg_s (some dash)
        ∷ [])
    ∷ [])

-- print_enclosure_info
unfoldable pub print_enclosure_info : ScsiDeviceInfo → Option Text
print_enclosure_info d = all_of (
    printf "[%-s]\t%-16s\t%-16s\t%-16s\t%-16s \n" (
      arg_s d.disk_name
      ∷ arg_s d.vendor
      ∷ arg_s d.model
      ∷ arg_s (some d.disk_type)
      ∷ arg_s d.disk_path
      ∷ [])
    ∷ [])
