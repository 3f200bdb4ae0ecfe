-- ===== src/Disk/Completes.antt =====
-- scsi_disk_utils.c: list_block_devs on a system whose attributes can be read.
pub mod Rounds
pub mod Block
use scsi_cli.Prelude.{
  Bool, List, Option, Text, [], arith, enodev, false, if_null, if◌then◌else◌, length, ltb, none,
  not, pos, refl, some, text, true, ℕ, ℤ, ◌++◌, ◌==◌, ◌∷◌, ◌≡◌, ◌≤◌,
}
use scsi_cli.Attribute.{device_path, entry_path, read_int, read_text}
use scsi_cli.Clib.Printf.{IsPlain, expand_plain, snprintf_format, sprintf_into, truncated}
use scsi_cli.Clib.Scan.{scan_hctl}
use scsi_cli.Device.Disk.{ScsiDeviceInfo}
use scsi_cli.Disk.Correct.{store_type_name_lem}
use scsi_cli.Disk.Info.{get_disk_type, get_disk_vendor_model, get_nvme_device_model}
use scsi_cli.Disk.Lists.{located, sysfs_block_path, typed}
use scsi_cli.Sysfs.{
  find_hctl, get_device_numbers, get_hctl_info, hctl_path, open_sysfs_stats_file, store_hctl,
}
use scsi_cli.World.{Dirent, System, closedir, opendir, pure, say, ◌>>◌}
use scsi_cli.World.Completes.{
  Completes, Completes-bind, Completes-closedir, Completes-emit, Completes-if, Completes-lift,
  Completes-opendir, Completes-pure,
}

-- The attribute has a line, and no `%` in it.
abbrev pub IsReadable : System → Text → Type 0
IsReadable sys path = if_null (open_sysfs_stats_file sys path) ⊥ IsPlain

-- The structure is about the entry of /sys/block with this name, and has `o` for the name of its disk.
abbrev pub IsAbout : Option Text → Text → ScsiDeviceInfo → Type 0
IsAbout o name d = (d.disk_path ≡ some (entry_path 512 sysfs_block_path name)) × (d.disk_name ≡ o)

module _ (sys : System) where
  -- The attribute of the entry, by the path that the program builds.
  abbrev pub HasAttribute : Text → Text → Type 0
  HasAttribute name attribute =
      IsReadable sys (device_path 1024 (entry_path 512 sysfs_block_path name) attribute)

  read_text_defined :
      (n : ℕ) (path : Text) → IsReadable sys path → (t : Text) × (read_text sys n path ≡ some t)
  unfolding read_text snprintf_format
  read_text_defined n path h = go (open_sysfs_stats_file sys path) h
    where
      go : (o : Option Text) → if_null o ⊥ IsPlain → (t : Text) × (snprintf_format n o ≡ some t)
      go none h = absurd h
      go (some s) h = (truncated n s, rw (expand_plain s h) refl)

module _ (sys : System) (o : Option Text) where
  get_disk_type-IsAbout :
      (name : Text) (d : ScsiDeviceInfo)
      → HasAttribute sys name (text "type")
      → IsAbout o name d
      → if_null (get_disk_type sys d) ⊥ (IsAbout o name)
  unfolding get_disk_type read_int
  get_disk_type-IsAbout name d h about =
      let (t, e) = read_text_defined sys 8 _ h in rw (about.0, e) (refl, about.1)

  store_hctl-IsAbout :
      (name : Text) (v : List ℤ) (d : ScsiDeviceInfo)
      → IsAbout o name d
      → IsAbout o name (store_hctl v d)
  unfolding store_hctl
  store_hctl-IsAbout name [] d h = h
  store_hctl-IsAbout name (a ∷ []) d h = h
  store_hctl-IsAbout name (a ∷ b ∷ []) d h = h
  store_hctl-IsAbout name (a ∷ b ∷ c ∷ []) d h = h
  store_hctl-IsAbout name (a ∷ b ∷ c ∷ l ∷ v) d h = h

  find_hctl-IsAbout :
      (name : Text) (es : List Dirent) (d : ScsiDeviceInfo)
      → IsAbout o name d
      → IsAbout o name (find_hctl es d).1
  unfolding find_hctl
  find_hctl-IsAbout name [] d h = h
  find_hctl-IsAbout name (e ∷ es) d h =
      let stored = store_hctl-IsAbout name (scan_hctl e.d_name) d h in
      go (not e.is_directory) (length (scan_hctl e.d_name) == 4) _ _ _ stored
        (find_hctl-IsAbout name es d h)
        (find_hctl-IsAbout name es (store_hctl (scan_hctl e.d_name) d) stored)
    where
      go :
          (b c : Bool) (skip more : Bool × ScsiDeviceInfo) (d' : ScsiDeviceInfo)
          → IsAbout o name d'
          → IsAbout o name skip.1
          → IsAbout o name more.1
          → IsAbout o name (if b then skip else if c then (true, d') else more).1
      go true c skip more d' p q r = q
      go false true skip more d' p q r = p
      go false false skip more d' p q r = r

  get_hctl_info-Completes :
      (name : Text) (d : ScsiDeviceInfo)
      → IsAbout o name d
      → Completes 0 [] (λ (r : ℤ × ScsiDeviceInfo). IsAbout o name r.1) (get_hctl_info sys d)
  unfolding get_hctl_info
  get_hctl_info-Completes name d h =
      Completes-bind (opendir sys (hctl_path sys d)) _ (Completes-opendir sys (hctl_path sys d))
        (λ dir q. go dir)
    where
      go :
          (dir : Option (List Dirent))
          → Completes 0 []
              (λ (r : ℤ × ScsiDeviceInfo). IsAbout o name r.1)
              (if_null dir (pure (enodev, d)) (λ entries.
                closedir
                >> pure
                    (if (find_hctl entries d).0 then pos 0 else enodev, (find_hctl entries d).1)))
      go none = Completes-pure _ h
      go (some entries) =
          Completes-bind closedir _ Completes-closedir
            (λ _ q. Completes-pure _ (find_hctl-IsAbout name entries d h))

  get_device_numbers-Completes :
      (name : Text) (d : ScsiDeviceInfo)
      → length name ≤ 250
      → IsAbout o name d
      → Completes 0 []
          (λ (r : ℤ × ScsiDeviceInfo). IsAbout o name r.1)
          (get_device_numbers sys name d)
  unfolding get_device_numbers sprintf_into
  get_device_numbers-Completes name d short h =
      Completes-bind _ _ (Completes-lift _ fits) (λ path _.
        Completes-if _ (Completes-bind _ _ (Completes-emit _) (λ _ q. Completes-pure _ h))
          (numbers (sys.device_numbers path)))
    where
      fits : if_null (sprintf_into 256 (text "/dev/" ++ name)) ⊥ (λ _. Unit)
      fits =
          let small : ltb (length (text "/dev/" ++ name)) 256 ≡ true = ground (arith, short) in
          rw small tt

      numbers :
          (st_rdev : Option (ℕ × ℕ))
          → Completes 0 []
              (λ (r : ℤ × ScsiDeviceInfo). IsAbout o name r.1)
              (if_null st_rdev
                (do say "perror"; pure (pos 0, d))
                (λ (st_major, st_minor).
                  pure (pos 0, record d { major = st_major; minor = st_minor })))
      numbers none = Completes-bind _ _ (Completes-emit _) (λ _ q. Completes-pure _ h)
      numbers (some (a, b)) = Completes-pure _ h

  pub typed-Completes :
      (name : Text) (d : ScsiDeviceInfo)
      → HasAttribute sys name (text "type")
      → IsAbout o name d
      → Completes 0 [] (IsAbout o name) (typed sys d)
  unfolding typed
  typed-Completes name d h about =
      Completes-bind _ _ (Completes-lift _ (get_disk_type-IsAbout name d h about))
        (λ t q. Completes-lift _ (rw (store_type_name_lem t) q))

  pub located-Completes :
      (name : Text) (d : ScsiDeviceInfo)
      → length name ≤ 250
      → IsAbout o name d
      → Completes 0 [] (IsAbout o name) (located sys name d)
  unfolding located
  located-Completes name d short about =
      Completes-bind _ _ (get_device_numbers-Completes name d short about) (λ r q.
        Completes-bind _ _ (get_hctl_info-Completes name r.1 q)
          (λ placed k. Completes-pure placed.1 k))

  pub get_disk_vendor_model-IsAbout :
      (name : Text) (d : ScsiDeviceInfo)
      → HasAttribute sys name (text "vendor")
      → HasAttribute sys name (text "model")
      → HasAttribute sys name (text "rev")
      → IsAbout o name d
      → if_null (get_disk_vendor_model sys d) ⊥ (IsAbout o name)
  unfolding get_disk_vendor_model
  get_disk_vendor_model-IsAbout name d h k l about =
      let (s, e) = read_text_defined sys 32 _ h in
      let (t, f) = read_text_defined sys 32 _ k in
      let (u, g) = read_text_defined sys 32 _ l in rw (about.0, e, f, g) (refl, about.1)

  pub get_nvme_device_model-IsAbout :
      (name : Text) (d : ScsiDeviceInfo)
      → HasAttribute sys name (text "model")
      → HasAttribute sys name (text "firmware_rev")
      → IsAbout o name d
      → if_null (get_nvme_device_model sys d) ⊥ (IsAbout o name)
  unfolding get_nvme_device_model
  get_nvme_device_model-IsAbout name d h k about =
      let (s, e) = read_text_defined sys 32 _ h in
      let (t, f) = read_text_defined sys 32 _ k in rw (about.0, e, f) (refl, about.1)
