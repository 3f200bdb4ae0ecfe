-- ===== src/Disk/Completes/Rounds.antt =====
-- scsi_disk_utils.c: the rounds of both loops of list_block_devs, where memory is left.
use scsi_cli.Prelude.{
  Bool-cases, List, Option, Text, [], ap, append_nil, enodev, enospc, if_null, inl, inr, length,
  none, pos, refl, some, subst, text, true, ℤ, ◌∙◌, ◌∷◌, ◌≡◌, ◌≤◌,
}
use scsi_cli.Attribute.{entry_path}
use scsi_cli.Device.{Shown, disk_info, nvme_disk_info}
use scsi_cli.Device.Disk.{ScsiDeviceInfo, zero_scsi_device}
use scsi_cli.Disk.Completes.{
  HasAttribute, IsAbout, get_disk_vendor_model-IsAbout, get_nvme_device_model-IsAbout,
  located-Completes, typed-Completes,
}
use scsi_cli.Disk.Correct.{store_type_name_lem}
use scsi_cli.Disk.Info.{store_type_name}
use scsi_cli.Disk.Lists.{
  block_round, block_work, is_nvme_block, is_sd, named, nvme_round, nvme_work, sysfs_block_path,
  with_device,
}
use scsi_cli.Loop.{give, next}
use scsi_cli.Loop.Completes.{IsRound}
use scsi_cli.Sysfs.{alloc_scsi_dev, put_scsi_dev}
use scsi_cli.World.{Dirent, M, System, emit, malloc, pure, shown, ◌>>◌}
use scsi_cli.World.Completes.{
  Completes, Completes-bind, Completes-emit, Completes-free, Completes-lift, Completes-malloc,
  Completes-pure, row_of,
}

module _ (sys : System) where
  -- What list_block_devs reads of a SCSI disk.
  pub record IsScsiReadable (name : Text) : Type 0 where
    pub short_name : length name ≤ 250
    pub type : HasAttribute sys name (text "type")
    pub vendor : HasAttribute sys name (text "vendor")
    pub model : HasAttribute sys name (text "model")
    pub rev : HasAttribute sys name (text "rev")

  -- What it reads of an NVMe disk.
  pub record IsNvmeReadable (name : Text) : Type 0 where
    pub short_name : length name ≤ 250
    pub model : HasAttribute sys name (text "model")
    pub firmware_rev : HasAttribute sys name (text "firmware_rev")

  abbrev pub IsBlockReadable : Dirent → Type 0
  IsBlockReadable e =
      (is_sd e.d_name ≡ true → IsScsiReadable e.d_name)
      × (is_nvme_block e.d_name ≡ true → IsNvmeReadable e.d_name)

pub alloc_scsi_dev-Completes : Completes 1 [] (λ got. got ≡ some zero_scsi_device) alloc_scsi_dev
unfolding alloc_scsi_dev
alloc_scsi_dev-Completes =
    Completes-bind malloc _ Completes-malloc (λ got q. Completes-pure _ (rw q refl))

pub with_device-Completes :
    (failure : ℤ) (work : ScsiDeviceInfo → M (Unit {0})) (names : List Text)
    → Completes 0 names (λ _. Unit {0}) (work zero_scsi_device)
    → Completes 1 names (λ flow. flow ≡ next) (with_device failure work)
unfolding with_device put_scsi_dev
with_device-Completes failure work names h =
    Completes-bind alloc_scsi_dev _ alloc_scsi_dev-Completes go
  where
    go :
        (got : Option ScsiDeviceInfo)
        → got ≡ some zero_scsi_device
        → Completes 0 names
            (λ flow. flow ≡ next)
            (if_null got (pure (give failure)) (λ d. (do work d; put_scsi_dev; pure next)))
    go none q = absurd (cc q)
    go (some d) q =
        subst (λ xs. Completes 0 xs (λ flow. flow ≡ next) (do work d; put_scsi_dev; pure next))
          (append_nil names)
          (Completes-bind (work d) _
            (subst (λ k. Completes 0 names (λ _. Unit {0}) (work k)) (cc q) h)
            (λ _ _. Completes-bind put_scsi_dev _ Completes-free (λ _ _. Completes-pure next refl)))

module _ (sys : System) where
  named-IsAbout :
      (name : Text) (d : ScsiDeviceInfo) → IsAbout (some name) name (named sysfs_block_path name d)
  named-IsAbout name d = (refl, refl)

  row-IsAbout :
      (name : Text) (d : ScsiDeviceInfo) (x : Shown)
      → IsAbout (some name) name d
      → row_of x ≡ if_null d.disk_name [] (λ n. n ∷ [])
      → Completes 0 (name ∷ []) (λ _. Unit {0}) (emit (shown x))
  row-IsAbout name d x about e =
      subst (λ xs. Completes 0 xs (λ _. Unit {0}) (emit (shown x)))
        (e ∙ ap (λ o. if_null o [] (λ n. n ∷ [])) about.1) (Completes-emit (shown x))

  block_work-Completes :
      (name : Text) (d : ScsiDeviceInfo)
      → IsScsiReadable sys name
      → Completes 0 (name ∷ []) (λ _. Unit {0}) (block_work sys name d)
  unfolding block_work
  block_work-Completes name d h =
      Completes-bind _ _
        (typed-Completes sys (some name) name (named sysfs_block_path name d) h.type
          (named-IsAbout name d))
        (λ t p. Completes-bind _ _ (located-Completes sys (some name) name t h.short_name p) (λ l q.
          Completes-bind _ _
            (Completes-lift _
              (get_disk_vendor_model-IsAbout sys (some name) name l h.vendor h.model h.rev q))
            (λ v r. row-IsAbout name v (disk_info v) r refl)))

  pub block_round-IsRound :
      (e : Dirent)
      → (is_sd e.d_name ≡ true → IsScsiReadable sys e.d_name)
      → IsRound (λ e. is_sd e.d_name) (block_round sys) e
  unfolding block_round
  block_round-IsRound e h = elim (Bool-cases (is_sd e.d_name)) [
    | inl disk ↦ rw disk (
        with_device-Completes enodev (block_work sys e.d_name) (e.d_name ∷ [])
          (block_work-Completes e.d_name zero_scsi_device (h disk)))
    | inr other ↦ rw other (Completes-pure next refl)
  ]

  store_type_name-defined : (d : ScsiDeviceInfo) → if_null (store_type_name d) ⊥ (λ _. Unit {0})
  store_type_name-defined d = rw (store_type_name_lem d) tt

  nvme_work-Completes :
      (name : Text) (d : ScsiDeviceInfo)
      → IsNvmeReadable sys name
      → Completes 0 (name ∷ []) (λ _. Unit {0}) (nvme_work sys name d)
  unfolding nvme_work
  nvme_work-Completes name d h =
      Completes-bind _ _
        (Completes-lift {P = λ _. Unit {0}} _
          (store_type_name-defined (record d { device_type = pos 0 })))
        (λ t _.
          Completes-bind _ _
            (located-Completes sys t.disk_name name
              (record t { disk_path = some (entry_path 512 sysfs_block_path name) }) h.short_name
              (refl, refl))
            (λ l q.
              Completes-bind _ _
                (Completes-lift _ (
                  get_nvme_device_model-IsAbout sys (some name) name
                    (record l { disk_name = some name }) h.model h.firmware_rev (q.0, refl)))
                (λ v r. row-IsAbout name v (nvme_disk_info v) r refl)))

  pub nvme_round-IsRound :
      (e : Dirent)
      → (is_nvme_block e.d_name ≡ true → IsNvmeReadable sys e.d_name)
      → IsRound (λ e. is_nvme_block e.d_name) (nvme_round sys) e
  unfolding nvme_round
  nvme_round-IsRound e h = elim (Bool-cases (is_nvme_block e.d_name)) [
    | inl disk ↦ rw disk (
        with_device-Completes enospc (nvme_work sys e.d_name) (e.d_name ∷ [])
          (nvme_work-Completes e.d_name zero_scsi_device (h disk)))
    | inr other ↦ rw other (Completes-pure next refl)
  ]
