-- ===== src/Disk/Types.antt =====
-- scsi_disk_utils.c: the table of device types; scsi.h: the numbers of the types.
use scsi_cli.Prelude.{List, Option, Text, [], eq_ℤ, if◌then◌else◌, none, pos, some, text, ℤ, ◌∷◌}

-- STORAGE_ARRAY_CNTROLLER
abbrev pub storage_array_controller : ℤ
storage_array_controller = pos 12

-- UNKNOWN_DEVICE
abbrev pub unknown_device : ℤ
unknown_device = pos 31

-- GENERIC_DEV of enum device_type
abbrev pub generic_dev : ℤ
generic_dev = pos 8

-- dev_type_str
unfoldable pub dev_type_str : List (ℤ × Text)
dev_type_str =
    (pos 0, text "disk")
    ∷ (pos 1, text "Seqential")
    ∷ (pos 2, text "Printer")
    ∷ (pos 3, text "Processor")
    ∷ (pos 4, text "Write-Once")
    ∷ (pos 5, text "CD/DVD-ROM")
    ∷ (pos 6, text "Scanner")
    ∷ (pos 7, text "Optical")
    ∷ (pos 8, text "Medium Changer")
    ∷ (pos 9, text "Communication")
    ∷ (pos 12, text "Storage Array")
    ∷ (pos 13, text "Enclosure")
    ∷ (pos 14, text "Sim Direct Access")
    ∷ (pos 15, text "Optical Card RW")
    ∷ (pos 17, text "Object Based Storage")
    ∷ (pos 18, text "Automation")
    ∷ (pos 19, text "security Managed")
    ∷ (pos 20, text "Host-Managed ZBD")
    ∷ (pos 30, text "Well Known LU")
    ∷ (pos 31, text "Unknown")
    ∷ []

-- The loop over dev_type_str, which validate_enclosure_type repeats.
unfoldable pub find_type : ℤ → List (ℤ × Text) → Option Text
find_type dev_type [] = none
find_type dev_type ((type_number, dev_name) ∷ rest) =
    if eq_ℤ dev_type type_number then some dev_name else find_type dev_type rest

-- dev_type_to_dev_name
unfoldable pub dev_type_to_dev_name : ℤ → Text
unfolding find_type dev_type_str
dev_type_to_dev_name dev_type = elim (find_type dev_type dev_type_str) [
  | none ↦ text "Unknow Device"
  | some name ↦ name
]
