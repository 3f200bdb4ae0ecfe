-- ===== src/Disk/Correct.antt =====
-- scsi_disk_utils.c: the name of a device type, and the path of an enclosure's type.
use scsi_cli.Prelude.{
  All, Bool-cases, List, Option, Text, [], ap, arith, eq_ℤ, if_null, inl, inr, length,
  length-append, none, refl, some, text, ℤ, ◌++◌, ◌∷◌, ◌≡◌, ◌≢◌, ◌≤◌,
}
use scsi_cli.Attribute.{entry_path}
use scsi_cli.Clib.Printf.{IsPlain, snprintf_format_plain, truncated-length}
use scsi_cli.Device.Disk.{ScsiDeviceInfo}
use scsi_cli.Disk.Enclosure.{type_path}
use scsi_cli.Disk.Info.{store_type_name}
use scsi_cli.Disk.Types.{dev_type_str, dev_type_to_dev_name, find_type}

-- A text that snprintf copies whole into disk_type.
IsShort : Text → Type 0
IsShort s = IsPlain s × (length s ≤ 31)

find_type-All :
    (dev_type : ℤ) (rows : List (ℤ × Text))
    → All (λ row. IsShort row.1) rows
    → if_null (find_type dev_type rows) Unit IsShort
unfolding find_type
find_type-All dev_type [] all = tt
find_type-All dev_type ((type_number, name) ∷ rest) (p, all) =
    elim (Bool-cases (eq_ℤ dev_type type_number)) [
      | inl same ↦ rw same p
      | inr other ↦ rw other (find_type-All dev_type rest all)
    ]

names-IsShort : All (λ row. IsShort row.1) dev_type_str
unfolding dev_type_str IsShort
names-IsShort = ground arith

type_name-IsShort : (dev_type : ℤ) → IsShort (dev_type_to_dev_name dev_type)
unfolding dev_type_to_dev_name IsShort
type_name-IsShort dev_type =
    choose (find_type dev_type dev_type_str) (find_type-All dev_type dev_type_str names-IsShort)
  where
    choose :
        (o : Option Text)
        → if_null o Unit IsShort
        → IsShort (elim o [ none ↦ text "Unknow Device" | some name ↦ name ])
    choose none h = ground arith
    choose (some name) h = h

-- For every number of a device type, the name that dev_type_to_dev_name gives is stored in
-- disk_type whole.
pub store_type_name_lem :
    (d : ScsiDeviceInfo)
    → store_type_name d ≡ some (record d { disk_type = dev_type_to_dev_name d.device_type })
unfolding store_type_name IsShort
store_type_name_lem d =
    let h = type_name-IsShort d.device_type in
    rw (snprintf_format_plain 32 (dev_type_to_dev_name d.device_type) h.0 h.1) refl

-- The path that validate_enclosure_type builds for an enclosure is never that of the attribute
-- device/type of the enclosure.
pub type_path_truncated :
    (name : Text)
    → let disk_path = entry_path 128 (text "/sys/class/enclosure") name in
      type_path disk_path ≢ disk_path ++ text "/device/type"
type_path_truncated name e = absurd (
    omega (
      arith,
      ap length e,
      truncated-length 32
          (entry_path 128 (text "/sys/class/enclosure") name ++ text "/device/type"),
      length-append (entry_path 128 (text "/sys/class/enclosure") name) (text "/device/type"),
    ))
