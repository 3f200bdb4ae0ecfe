-- ===== src/Disk/Completes/Block.antt =====
-- scsi_disk_utils.c: both loops of list_block_devs and the whole of it, where memory is left.
use scsi_cli.Prelude.{
  All, Bool, Bool-cases, List, Option, Text, [], ap, append_nil, arith, false, inl, inr, none, pos,
  refl, some, subst, sym, text, true, ℕ, ℤ, ◌++◌, ◌+◌, ◌||◌, ◌∙◌, ◌∷◌, ◌≡◌, ◌≤◌,
}
use scsi_cli.Clib.Compare.{strcmp_eq, strcmp_eq→eq}
use scsi_cli.Device.{disk_header, nvme_disk_header}
use scsi_cli.Disk.Completes.Rounds.{IsBlockReadable, block_round-IsRound, nvme_round-IsRound}
use scsi_cli.Disk.Lists.{
  block_round, is_nvme_block, is_sd, list_block_devs, list_nvme_devs, nvme_round, sysfs_block_path,
}
use scsi_cli.Loop.{is_dot}
use scsi_cli.Loop.Completes.{Completes-after, Completes-for_each_dir, IsRound, accepted, needed}
use scsi_cli.World.{Dirent, System, World, label, shown}
use scsi_cli.World.Completes.{
  Completes, Completes-bind, Completes-closedir, Completes-emit, Completes-found, Completes-opendir,
  Completes-pure, Completes-within, Done, printed_rows,
}

pub dot_names :
    (P : Text → Type 0) (name : Text) → P (text ".") → P (text "..") → is_dot name ≡ true → P name
dot_names P name one two h = elim (Bool-cases (strcmp_eq name (text "."))) [
  | inl e ↦ subst P (sym (strcmp_eq→eq name (text ".") e)) one
  | inr e ↦
      subst P (sym (strcmp_eq→eq name (text "..") (last (strcmp_eq name (text ".")) _ e h))) two
]
  where
    last : (b c : Bool) → b ≡ false → (b || c) ≡ true → c ≡ true
    last true c e h = absurd (cc e)
    last false c e h = h

not_sd : (name : Text) → is_dot name ≡ true → is_sd name ≡ false
not_sd name h = dot_names (λ n. is_sd n ≡ false) name refl refl h

not_nvme : (name : Text) → is_dot name ≡ true → is_nvme_block name ≡ false
not_nvme name h = dot_names (λ n. is_nvme_block n ≡ false) name refl refl h

module _ (sys : System) where
  block_rounds :
      (es : List Dirent)
      → All (IsBlockReadable sys) es
      → All (IsRound (λ e. is_sd e.d_name) (block_round sys)) es
  block_rounds [] h = tt
  block_rounds (e ∷ es) h = (block_round-IsRound sys e h.0.0, block_rounds es h.1)

  nvme_rounds :
      (es : List Dirent)
      → All (IsBlockReadable sys) es
      → All (IsRound (λ e. is_nvme_block e.d_name) (nvme_round sys)) es
  nvme_rounds [] h = tt
  nvme_rounds (e ∷ es) h = (nvme_round-IsRound sys e h.0.1, nvme_rounds es h.1)

  list_nvme_devs-Completes :
      (es : List Dirent)
      → sys.directory sysfs_block_path ≡ some es
      → All (IsBlockReadable sys) es
      → Completes
          (needed (λ e. is_nvme_block e.d_name) es)
          (accepted (λ e. is_nvme_block e.d_name) es)
          (λ r. r ≡ pos 0)
          (list_nvme_devs sys)
  unfolding list_nvme_devs
  list_nvme_devs-Completes es dir h = Completes-within _ _ (omega arith) (append_nil _) (
      Completes-bind _ _ (Completes-opendir sys sysfs_block_path) (λ found q.
        Completes-found found es _ _ (q ∙ dir) (
          Completes-bind _ _ (Completes-emit (label (text "nvme-block"))) (λ _ _.
            Completes-bind _ _ (Completes-emit (shown nvme_disk_header)) (λ _ _.
              Completes-after _ _
                (Completes-for_each_dir is_nvme_block (nvme_round sys) es not_nvme
                  (nvme_rounds es h))
                (Completes-bind _ _ Completes-closedir (λ _ _. Completes-pure (pos 0) refl)))))))

  -- What list_block_devs allocates, and the disks that it prints a row for.
  abbrev pub structures_needed : List Dirent → ℕ
  structures_needed es = needed (λ e. is_sd e.d_name) es + needed (λ e. is_nvme_block e.d_name) es

  abbrev pub disks_listed : List Dirent → List Text
  disks_listed es = accepted (λ e. is_sd e.d_name) es ++ accepted (λ e. is_nvme_block e.d_name) es

  pub list_block_devs-Completes :
      (es : List Dirent)
      → sys.directory sysfs_block_path ≡ some es
      → All (IsBlockReadable sys) es
      → Completes (structures_needed es) (disks_listed es) (λ r. r ≡ pos 0) (list_block_devs sys)
  unfolding list_block_devs
  list_block_devs-Completes es dir h = Completes-within _ _ (omega arith) refl (
      Completes-bind _ _ (Completes-opendir sys sysfs_block_path) (λ found q.
        Completes-found found es _ _ (q ∙ dir) (
          Completes-bind _ _ (Completes-emit (label (text "block"))) (λ _ _.
            Completes-bind _ _ (Completes-emit (shown disk_header)) (λ _ _.
              Completes-after _ _
                (Completes-for_each_dir is_sd (block_round sys) es not_sd (block_rounds es h))
                (Completes-bind _ _ Completes-closedir
                  (λ _ _. list_nvme_devs-Completes es dir h)))))))

  -- Where /sys/block can be read, the names of its disks have at most 250 characters, the
  -- attributes that the program reads of them have a line without %, and enough calls of malloc
  -- succeed for one structure per disk, list_block_devs is defined, gives 0, and prints exactly
  -- one row for each entry whose name begins with "sd", in the order of readdir, and then one for
  -- each NVMe entry.
  pub list_block_devs-lists_disks :
      (es : List Dirent) (w : World)
      → sys.directory sysfs_block_path ≡ some es
      → All (IsBlockReadable sys) es
      → structures_needed es ≤ w.budget
      → (w' : World) × ((list_block_devs sys w ≡ some (pos 0, w'))
          × (printed_rows w'.out ≡ printed_rows w.out ++ disks_listed es))
  list_block_devs-lists_disks es w dir h memory =
      go (list_block_devs sys w) ((list_block_devs-Completes es dir h).at w memory)
    where
      go :
          (o : Option (ℤ × World))
          → Done (structures_needed es) (disks_listed es) (λ r. r ≡ pos 0) w o
          → (w' : World) × ((o ≡ some (pos 0, w'))
              × (printed_rows w'.out ≡ printed_rows w.out ++ disks_listed es))
      go none d = absurd d
      go (some (r, w')) d = (w', (ap (λ k. some (k, w')) d.0, d.1.1))
