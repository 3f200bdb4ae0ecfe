-- ===== src/Disk/Fails.antt =====
-- scsi_disk_utils.c: list_cdrom_devs on a system with a CD-ROM device.
use scsi_cli.Prelude.{
  All, Bool, Bool-cases, List, Text, [], arith, enospc, false, if◌then◌else◌, inl, inr, none, refl,
  some, text, true, ◌++◌, ◌<◌, ◌∙◌, ◌∷◌, ◌≡◌,
}
use scsi_cli.Attribute.{device_path, entry_path, read_int, read_text}
use scsi_cli.Clib.Printf.{snprintf_format}
use scsi_cli.Device.Disk.{ScsiDeviceInfo, zero_scsi_device}
use scsi_cli.Disk.Completes.Block.{dot_names}
use scsi_cli.Disk.Completes.Rounds.{alloc_scsi_dev-Completes}
use scsi_cli.Disk.Info.{get_disk_type}
use scsi_cli.Disk.Lists.{is_cdrom, list_cdrom_devs, list_matching, named, typed, with_device}
use scsi_cli.Loop.{Flow, for_each_dir, is_dot, next}
use scsi_cli.Loop.Fails.{Fails-for_each}
use scsi_cli.Sysfs.{alloc_scsi_dev, open_sysfs_stats_file}
use scsi_cli.World.{Dirent, M, System, World, pure, ◌>>=◌}
use scsi_cli.World.Completes.{Completes-emit, Completes-opendir}
use scsi_cli.World.Fails.{Fails, Fails-after, Fails-first, Fails-found, Fails-lift, Fails-within}

-- The path from which list_cdrom_devs reads the type of a device.
abbrev pub cdrom_type_path : Text → Text
cdrom_type_path name = device_path 1024 (entry_path 512 (text "/dev") name) (text "type")

module _ (sys : System) where
  cdrom_work : Text → ScsiDeviceInfo → M (Unit {0})
  cdrom_work name d = typed sys (named (text "/dev") name d) >>= λ _. pure tt

  cdrom_round : Dirent → M Flow
  unfolding cdrom_work
  cdrom_round e =
      if is_dot e.d_name
      then pure next
      else if is_cdrom e.d_name
      then with_device enospc (cdrom_work e.d_name)
      else pure next

  get_disk_type-none :
      (name : Text) (d : ScsiDeviceInfo)
      → sys.file (cdrom_type_path name) ≡ none
      → get_disk_type sys (named (text "/dev") name d) ≡ none
  unfolding get_disk_type read_int read_text open_sysfs_stats_file snprintf_format
  get_disk_type-none name d h = rw h refl

  Fails-cdrom_work :
      (name : Text) (d : ScsiDeviceInfo)
      → sys.file (cdrom_type_path name) ≡ none
      → Fails 0 (cdrom_work name d)
  unfolding cdrom_work typed
  Fails-cdrom_work name d h =
      Fails-first _ _ (Fails-first _ _ (Fails-lift _ (get_disk_type-none name d h)))

  Fails-with_device :
      (name : Text)
      → sys.file (cdrom_type_path name) ≡ none
      → Fails 1 (with_device enospc (cdrom_work name))
  unfolding with_device
  Fails-with_device name h = Fails-after alloc_scsi_dev _ alloc_scsi_dev-Completes (λ got q.
      Fails-found got zero_scsi_device _ _ q (
        Fails-first (cdrom_work name zero_scsi_device) _
          (Fails-cdrom_work name zero_scsi_device h)))

  Fails-cdrom_round :
      (e : Dirent)
      → is_cdrom e.d_name ≡ true
      → sys.file (cdrom_type_path e.d_name) ≡ none
      → Fails 1 (cdrom_round e)
  unfolding cdrom_round
  Fails-cdrom_round e h file = elim (Bool-cases (is_dot e.d_name)) [
    | inl dot ↦ absurd (false≢true (dot_names (λ n. is_cdrom n ≡ false) e.d_name refl refl dot) h)
    | inr other ↦ rw (other, h) (Fails-with_device e.d_name file)
  ]
    where
      false≢true : {b : Bool} → b ≡ false → b ≡ true → ⊥
      false≢true p q = cc (p, q)

  passed :
      (us : List Dirent)
      → All (λ u. is_cdrom u.d_name ≡ false) us
      → All (λ u. cdrom_round u ≡ pure next) us
  unfolding cdrom_round
  passed [] h = tt
  passed (u ∷ us) h = elim (Bool-cases (is_dot u.d_name)) [
    | inl dot ↦ (rw dot refl, passed us h.1)
    | inr other ↦ (rw (other, h.0) refl, passed us h.1)
  ]

  list_cdrom_devs-Fails :
      (us : List Dirent) (e : Dirent) (vs : List Dirent)
      → sys.directory (text "/dev") ≡ some (us ++ (e ∷ vs))
      → All (λ u. is_cdrom u.d_name ≡ false) us
      → is_cdrom e.d_name ≡ true
      → sys.file (cdrom_type_path e.d_name) ≡ none
      → Fails 1 (list_cdrom_devs sys)
  unfolding list_cdrom_devs list_matching for_each_dir cdrom_round cdrom_work
  list_cdrom_devs-Fails us e vs dir before here file = Fails-within _ 1 _ (omega arith) (
      Fails-after _ _ (Completes-opendir sys (text "/dev")) (λ found q.
        Fails-found found (us ++ (e ∷ vs)) _ _ (q ∙ dir) (
          Fails-after _ _ (Completes-emit _) (λ _ _. Fails-after _ _ (Completes-emit _) (λ _ _.
            Fails-first _ _ (
              Fails-for_each 1 cdrom_round us e vs (passed us before)
                (Fails-cdrom_round e here file)))))))

  -- Where memory is left and the first CD-ROM device among the entries of /dev has no file
  -- device/type below its path, list_cdrom_devs is undefined: a null pointer becomes the format of
  -- snprintf.
  pub list_cdrom_devs_undefined :
      (us : List Dirent) (e : Dirent) (vs : List Dirent) (w : World)
      → sys.directory (text "/dev") ≡ some (us ++ (e ∷ vs))
      → All (λ u. is_cdrom u.d_name ≡ false) us
      → is_cdrom e.d_name ≡ true
      → sys.file (cdrom_type_path e.d_name) ≡ none
      → 0 < w.budget
      → list_cdrom_devs sys w ≡ none
  list_cdrom_devs_undefined us e vs w dir before here file memory =
      (list_cdrom_devs-Fails us e vs dir before here file).undefined_from w memory
