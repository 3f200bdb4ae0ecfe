-- ===== src/Cmd/Leak.antt =====
-- scsi_test.c: the structure of a block of cmd_show.
use scsi_cli.Prelude.{
  Option, Text, arith, if◌then◌else◌, is_negative, negsuc, none, pos, refl, some, suc, ℕ, ℤ, ◌+◌,
  ◌∙◌, ◌≡◌,
}
use scsi_cli.Cmd.Show.{show_block, show_disk}
use scsi_cli.Device.Disk.{zero_scsi_device}
use scsi_cli.Disk.Keeps.Show.{Keeps-show_disk_details}
use scsi_cli.Disk.Show.{show_disk_details}
use scsi_cli.Sysfs.{alloc_scsi_dev, put_scsi_dev}
use scsi_cli.World.{System, World, free, malloc, pure, ◌>>=◌, ◌>>◌}
use scsi_cli.World.Keeps.{Ends, IsSame, Keeps-bind, Keeps-pure}

-- What a block leaves: the structure still allocated where the result is negative, and freed otherwise.
abbrev pub LeaksOnError : World → Option (ℤ × World) → Type 0
LeaksOnError w none = Unit
LeaksOnError w (some (err, w')) = w'.live ≡ w.live + (if is_negative err then 1 else 0)

shown_or_freed :
    (w u : World) (o : Option (ℤ × World))
    → u.live ≡ w.live + 1
    → Ends (IsSame u) o
    → LeaksOnError w (elim o [
      | none ↦ none
      | some (err, w') ↦ (if is_negative err then pure err else put_scsi_dev >> pure err) w'
    ])
unfolding put_scsi_dev free ◌>>=◌
shown_or_freed w u none h k = tt
shown_or_freed w u (some (negsuc n, w')) h k = k.same_live ∙ h
shown_or_freed w u (some (pos n, w')) h k = omega (arith, k.same_live, h)

module _ (sys : System) (device : Text) (w : World) (n : ℕ) where
  -- Where memory is left, the block of cmd_show for a disk, where it is defined, leaves one more
  -- structure allocated if its result is negative and as many as before otherwise.
  pub show_disk-LeaksOnError : LeaksOnError w (show_disk sys device (record w { budget = suc n }))
  unfolding show_disk show_block alloc_scsi_dev malloc ◌>>=◌
  show_disk-LeaksOnError = shown_or_freed w u _ refl (
      (Keeps-bind (show_disk_details sys device zero_scsi_device) (λ r. pure r.0)
          (Keeps-show_disk_details sys device zero_scsi_device) (λ r. Keeps-pure r.0)).at
        u)
    where
      u : World
      u = record w { budget = n; live = w.live + 1 }
