-- ===== src/Disk/Found.antt =====
-- scsi_disk_utils.c: when show_disk_details succeeds.
use scsi_cli.Prelude.{
  Bool, List, Text, arith, enodev, false, if◌then◌else◌, inl, inr, length, pos, refl, some, text,
  true, ℕ, ℤ, ◌+◌, ◌==◌, ◌∙◌, ◌≡◌,
}
use scsi_cli.Clib.Compare.{strncmp_eq}
use scsi_cli.Clib.Printf.{snprintf_format}
use scsi_cli.Device.Disk.{ScsiDeviceInfo}
use scsi_cli.Disk.Show.{
  get_single_nvme_disk_details, get_single_scsi_disk_details, show_disk_details, show_round,
}
use scsi_cli.Loop.{Flow, next}
use scsi_cli.Loop.Counts.{Counted, Returns-for_each_dir_with, total, undotted}
use scsi_cli.World.{Dirent, System, World, closedir, pure, ◌>>=◌, ◌>>◌}
use scsi_cli.World.Returns.{
  Gives, Returns, Returns-any, Returns-bind, Returns-if, Returns-lift, Returns-opendir,
  Returns-pure,
}

-- 1 for an entry of /sys/block whose name begins with the name of the disk.
abbrev pub has_prefix : Text → Dirent → ℕ
has_prefix name e = if strncmp_eq e.d_name name (length name) then 1 else 0

-- The code that show_disk_details returns for the entries of /sys/block.
abbrev pub found_once : Text → List Dirent → ℤ
found_once name entries = if total (undotted (has_prefix name)) entries == 1 then pos 1 else enodev

module _ (sys : System) where
  show_round-Counted :
      (name : Text) (s : ℕ × ScsiDeviceInfo) (e : Dirent)
      → Returns (Counted (λ t. t.0) ⊥ enodev s (has_prefix name e)) (show_round sys name s e)
  unfolding show_round
  show_round-Counted name (count, d) e = shown_or_not (strncmp_eq e.d_name name (length name))
    where
      shown_or_not :
          (b : Bool)
          → Returns
              (Counted (λ (t : ℕ × ScsiDeviceInfo). t.0) ⊥ enodev (count, d) (if b then 1 else 0))
              (if b
                then (if strncmp_eq name (text "nvme") 4
                    then (do
                      full ← get_single_nvme_disk_details sys name d
                      pure (next, (count + 1, full)))
                    else (do
                      full ← get_single_scsi_disk_details sys name d
                      pure (next, (count + 1, full))))
                else pure (next, (count, d)))
      shown_or_not true =
          Returns-if _ (Returns-any _ _ (λ _. Returns-pure _ (inr (refl, refl))))
            (Returns-any _ _ (λ _. Returns-pure _ (inr (refl, refl))))
      shown_or_not false = Returns-pure _ (inr (refl, omega arith))

  show_disk_details-Returns :
      (argv3 name : Text) (d : ScsiDeviceInfo) (entries : List Dirent)
      → sys.directory (text "/sys/block") ≡ some entries
      → snprintf_format 16 (some argv3) ≡ some name
      → Returns
          (λ (r : ℤ × ScsiDeviceInfo). r.0 ≡ found_once name entries)
          (show_disk_details sys argv3 d)
  unfolding show_disk_details
  show_disk_details-Returns argv3 name d entries e n =
      Returns-bind _ _ (Returns-opendir sys (text "/sys/block")) (λ dir q.
        rw (q ∙ e, n)
          (Returns-bind _ _ (Returns-lift (some name)) (λ stored same.
            Returns-bind _ _
              (Returns-for_each_dir_with (λ t. t.0) ⊥ enodev (show_round sys stored)
                (has_prefix stored) (show_round-Counted stored) entries (0, d))
              (λ r c. ended r.0 r.1 stored same c))))
    where
      ended :
          (flow : Flow) (s : ℕ × ScsiDeviceInfo) (stored : Text)
          → some name ≡ some stored
          → Counted
              (λ (t : ℕ × ScsiDeviceInfo). t.0)
              ⊥
              enodev
              (0, d)
              (total (undotted (has_prefix stored)) entries)
              (flow, s)
          → Returns
              (λ (r : ℤ × ScsiDeviceInfo). r.0 ≡ found_once name entries)
              (closedir >> pure (if s.0 == 1 then pos 1 else enodev, s.1))
      ended flow s stored same (inl (p, q)) = absurd p
      ended flow s stored same (inr (q, m)) =
          Returns-any _ _ (λ _. Returns-pure _ (rw (counted, stored_name) refl))
        where
          counted : s.0 ≡ total (undotted (has_prefix stored)) entries
          counted = omega (arith, m)

          stored_name : stored ≡ name
          stored_name = cc same

  -- Where /sys/block can be read and the buffer holds the name of a disk, show_disk_details, where
  -- it is defined, gives 1 if exactly one entry but "." and ".." begins with the name, and -ENODEV
  -- if none or several do.
  pub show_disk_details-found_once :
      (argv3 name : Text) (d : ScsiDeviceInfo) (entries : List Dirent) (w : World)
      → sys.directory (text "/sys/block") ≡ some entries
      → snprintf_format 16 (some argv3) ≡ some name
      → Gives
          (λ (r : ℤ × ScsiDeviceInfo). r.0 ≡ found_once name entries)
          (show_disk_details sys argv3 d w)
  show_disk_details-found_once argv3 name d entries w e n =
      (show_disk_details-Returns argv3 name d entries e n).value w
