-- ===== src/Disk/Lists.antt =====
-- scsi_disk_utils.c: the list commands for block devices, controllers, CD-ROM, tape, generic and
-- multipath devices. A return from inside a loop leaves the directory stream open.
use scsi_cli.Prelude.{
  Bool, Text, enodev, enospc, eq_ℤ, if_null, if◌then◌else◌, not, pos, some, text, ℤ, ◌&&◌, ◌||◌,
}
use scsi_cli.Attribute.{entry_path}
use scsi_cli.Clib.Compare.{strncmp_eq}
use scsi_cli.Device.{
  Shown, disk_header, disk_info, generic_disk_header, generic_disk_info, mpath_disk_header,
  mpath_disk_info, nvme_disk_header, nvme_disk_info,
}
use scsi_cli.Device.Disk.{ScsiDeviceInfo}
use scsi_cli.Disk.Info.{
  get_disk_type, get_disk_vendor_model, get_nvme_device_model, store_type_name,
}
use scsi_cli.Disk.Types.{generic_dev, storage_array_controller, unknown_device}
use scsi_cli.Loop.{Flow, after, for_each_dir, give, next}
use scsi_cli.Sysfs.{alloc_scsi_dev, get_device_numbers, get_hctl_info, put_scsi_dev}
use scsi_cli.World.{
  Dirent, M, System, closedir, emit, label, lift, opendir, pure, say, shown, ◌>>=◌, ◌>>◌,
}

-- SYSFS_BLOCK_PATH
abbrev pub sysfs_block_path : Text
sysfs_block_path = text "/sys/block"

-- SYSFS_SCSI_GEN_PATH
abbrev pub sysfs_scsi_gen_path : Text
sysfs_scsi_gen_path = text "/sys/class/scsi_generic"

-- disk_path and disk_name of a freshly allocated structure
abbrev pub named : Text → Text → ScsiDeviceInfo → ScsiDeviceInfo
named dir name d = record d { disk_path = some (entry_path 512 dir name); disk_name = some name }

-- d_info = alloc_scsi_dev(), the return where that fails, the work on the structure, put_scsi_dev
unfoldable pub with_device : ℤ → (ScsiDeviceInfo → M (Unit {0})) → M Flow
unfolding alloc_scsi_dev put_scsi_dev
with_device failure work = do
  got ← alloc_scsi_dev
  if_null got (pure (give failure)) (λ d. (do work d; put_scsi_dev; pure next))

-- the tests on the name of an entry
abbrev pub is_sd : Text → Bool
is_sd name = strncmp_eq name (text "sd") 2

abbrev pub is_nvme_block : Text → Bool
is_nvme_block name =
    strncmp_eq name (text "nvme") 4 && not (strncmp_eq name (text "nvme-fabrics") 12)

abbrev pub is_cdrom : Text → Bool
is_cdrom name =
    (strncmp_eq name (text "sr") 2 && not (strncmp_eq name (text "std") 3))
    || strncmp_eq name (text "scd") 3

abbrev pub is_tape : Text → Bool
is_tape name =
    (strncmp_eq name (text "st") 2 && not (strncmp_eq name (text "std") 3))
    || strncmp_eq name (text "mt") 2

abbrev pub is_generic : Text → Bool
is_generic name = strncmp_eq name (text "sg") 2 || strncmp_eq name (text "ng") 2

module _ (sys : System) where
  -- get_disk_type and the name of the type
  unfoldable pub typed : ScsiDeviceInfo → M ScsiDeviceInfo
  unfolding get_disk_type store_type_name
  typed d = do t ← lift (get_disk_type sys d); lift (store_type_name t)

  -- get_device_numbers and get_hctl_info, whose results are dropped
  unfoldable pub located : Text → ScsiDeviceInfo → M ScsiDeviceInfo
  unfolding get_device_numbers get_hctl_info
  located name d = do
    (_, numbered) ← get_device_numbers sys name d
    (_, placed) ← get_hctl_info sys numbered
    pure placed

  -- the work on an entry in the first loop of list_block_devs
  unfoldable pub block_work : Text → ScsiDeviceInfo → M (Unit {0})
  unfolding typed located get_disk_vendor_model
  block_work name d = do
    t ← typed (named sysfs_block_path name d)
    l ← located name t
    v ← lift (get_disk_vendor_model sys l)
    emit (shown (disk_info v))

  -- the work on an entry in the second loop: device_type is DIRECT_ACCESS_BLOCK_DEVICE
  unfoldable pub nvme_work : Text → ScsiDeviceInfo → M (Unit {0})
  unfolding store_type_name located get_nvme_device_model
  nvme_work name d = do
    t ← lift (store_type_name (record d { device_type = pos 0 }))
    l ← located name (record t { disk_path = some (entry_path 512 sysfs_block_path name) })
    v ← lift (get_nvme_device_model sys (record l { disk_name = some name }))
    emit (shown (nvme_disk_info v))

  unfoldable pub block_round : Dirent → M Flow
  unfolding with_device block_work
  block_round e = if is_sd e.d_name then with_device enodev (block_work e.d_name) else pure next

  unfoldable pub nvme_round : Dirent → M Flow
  unfolding with_device nvme_work
  nvme_round e =
      if is_nvme_block e.d_name then with_device enospc (nvme_work e.d_name) else pure next

  -- the second half of list_block_devs
  unfoldable pub list_nvme_devs : M ℤ
  unfolding opendir closedir for_each_dir nvme_round
  list_nvme_devs = do
    dir ← opendir sys sysfs_block_path
    if_null dir (do say "\n No Block device configured \n"; pure enodev)
        (λ entries. (do
          emit (label (text "nvme-block"))
          emit (shown nvme_disk_header)
          flow ← for_each_dir entries nvme_round
          after flow (closedir >> pure (pos 0))))

  -- list_block_devs
  unfoldable pub list_block_devs : M ℤ
  unfolding opendir closedir for_each_dir block_round list_nvme_devs
  list_block_devs = do
    dir ← opendir sys sysfs_block_path
    if_null dir (do say "\n No Block device configured \n"; pure enodev)
        (λ entries. (do
          emit (label (text "block"))
          emit (shown disk_header)
          flow ← for_each_dir entries block_round
          after flow (closedir >> list_nvme_devs)))

  -- list_controllers
  unfoldable pub controller_work : Text → ScsiDeviceInfo → M (Unit {0})
  unfolding typed located get_disk_vendor_model
  controller_work name d = do
    t ← typed (named sysfs_scsi_gen_path name d)
    l ← located name t
    v ← lift (get_disk_vendor_model sys l)
    if eq_ℤ v.device_type storage_array_controller then emit (shown (disk_info v)) else pure tt

  unfoldable pub list_controllers : M ℤ
  unfolding opendir closedir for_each_dir with_device controller_work
  list_controllers = do
    dir ← opendir sys sysfs_scsi_gen_path
    if_null dir (pure enodev) (λ entries. (do
      emit (label (text "Disk Controller"))
      emit (shown disk_header)
      flow ← for_each_dir entries (λ e. with_device enodev (controller_work e.d_name))
      after flow (closedir >> pure (pos 0))))

  -- The loop of the other list commands: the entries that the test accepts.
  unfoldable pub list_matching :
      Text → Text → Shown → (Text → Bool) → (Text → ScsiDeviceInfo → M (Unit {0})) → M ℤ
  unfolding opendir closedir for_each_dir with_device
  list_matching path title header test work = do
    dir ← opendir sys path
    if_null dir (pure enodev) (λ entries. (do
      emit (label title)
      emit (shown header)
      flow ←
          for_each_dir entries
            (λ e. if test e.d_name then with_device enospc (work e.d_name) else pure next)
      after flow (closedir >> pure (pos 0))))

  -- list_cdrom_devs
  unfoldable pub list_cdrom_devs : M ℤ
  unfolding list_matching typed
  list_cdrom_devs =
      list_matching (text "/dev") (text "CD-ROM Devices") disk_header is_cdrom
        (λ name d. typed (named (text "/dev") name d) >>= λ _. pure tt)

  -- list_tape_devs
  unfoldable pub list_tape_devs : M ℤ
  unfolding list_matching typed
  list_tape_devs =
      list_matching (text "/dev") (text "Tape Drives") disk_header is_tape
        (λ name d. typed (named (text "/dev") name d) >>= λ _. say "%s: Tape Device %s\n")

  -- list_generic_devs
  unfoldable pub generic_work : Text → ScsiDeviceInfo → M (Unit {0})
  unfolding located get_disk_vendor_model
  generic_work name d = do
    l ← located name (named (text "/dev") name (record d { device_type = generic_dev }))
    v ← lift (
        get_disk_vendor_model sys (record l {
          disk_type =
              if strncmp_eq name (text "ng") 2 then text "NVMe Generic" else text "SCSI Generic";
        }))
    emit (shown (generic_disk_info v))

  unfoldable pub list_generic_devs : M ℤ
  unfolding list_matching generic_work
  list_generic_devs =
      list_matching (text "/dev") (text "Generic Devices") generic_disk_header is_generic
        generic_work

  -- list_multipath_devs: the test on "dm-" compares two characters
  unfoldable pub multipath_work : Text → ScsiDeviceInfo → M (Unit {0})
  unfolding located get_disk_vendor_model
  multipath_work name d = do
    l ← located name (named sysfs_block_path name (record d { device_type = unknown_device }))
    v ← lift (get_disk_vendor_model sys l)
    emit (shown (mpath_disk_info v))

  abbrev pub is_multipath : Text → Bool
  is_multipath name = strncmp_eq name (text "dm-") 2 || strncmp_eq name (text "md") 2

  unfoldable pub list_multipath_devs : M ℤ
  unfolding list_matching multipath_work
  list_multipath_devs =
      list_matching sysfs_block_path (text "Multipath Devices") mpath_disk_header is_multipath
        multipath_work
