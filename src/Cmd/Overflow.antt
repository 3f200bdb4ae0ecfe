-- ===== src/Cmd/Overflow.antt =====
-- scsi_test.c: the buffers that get the name of a device, written with a size of the name and not of
-- the buffer.
use scsi_cli.Prelude.{
  List, Text, arith, false, length, length-take, min, none, refl, text, ℕ, ◌+◌, ◌-◌, ◌<◌, ◌==◌, ◌∷◌,
  ◌≡◌, ◌≤◌,
}
use scsi_cli.Clib.Printf.{snprintf_into, truncated}
use scsi_cli.Cmd.Reset.{cmd_reset}
use scsi_cli.Cmd.Show.{cmd_show}
use scsi_cli.Cmd.Stats.{cmd_stats}
use scsi_cli.Cmd.Tables.{validate_subcommand}
use scsi_cli.World.{System, World, ◌>>=◌}

too_long :
    (cap n : ℕ) (s : Text)
    → cap ≤ length (truncated n s)
    → (n == 0) ≡ false
    → snprintf_into cap n s ≡ none
unfolding snprintf_into
too_long cap n s h e = ground arith

module _ (program device : Text) (rest : List Text) (sys : System) where
  -- On a name of more than 32 characters, the commands show disk, reset adapter and stats disk
  -- write past the end of their buffers.
  pub long_name_undefined :
      32 < length device
      → (w : World)
      → (cmd_show sys (program ∷ text "show" ∷ text "disk" ∷ device ∷ rest) w ≡ none)
        × ((cmd_reset sys (program ∷ text "reset" ∷ text "adapter" ∷ device ∷ rest) w ≡ none)
            × (cmd_stats sys (program ∷ text "stats" ∷ text "disk" ∷ device ∷ rest) w ≡ none))
  unfolding cmd_show cmd_reset cmd_stats validate_subcommand ◌>>=◌
  long_name_undefined long w = (rw in_show refl, (rw in_reset refl, rw in_stats refl))
    where
      whole : length (truncated (length device) device) ≡ min (length device - 1) (length device)
      whole = length-take (length device - 1) device

      more :
          length (truncated (length device + 2) device)
          ≡ min (length device + 2 - 1) (length device)
      more = length-take (length device + 2 - 1) device

      in_show : snprintf_into 16 (length device) device ≡ none
      in_show = too_long 16 (length device) device (omega (arith, whole)) (ground arith)

      in_reset : snprintf_into 32 (length device) device ≡ none
      in_reset = too_long 32 (length device) device (omega (arith, whole)) (ground arith)

      in_stats : snprintf_into 32 (length device + 2) device ≡ none
      in_stats = too_long 32 (length device + 2) device (omega (arith, more)) (ground arith)
