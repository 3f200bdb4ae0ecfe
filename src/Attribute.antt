-- ===== src/Attribute.antt =====
-- The way the collecting routines read an attribute of sysfs: build the path in a buffer, read its
-- first line, copy that into a second buffer with the line as the format, and convert. `none` is
-- undefined behaviour: a missing or empty attribute gives a null pointer for the format.
pub mod RoundTrip
use scsi_cli.Prelude.{Option, Text, ap, none, some, text, to_int, ℕ, ℤ, ◌++◌, ◌∙◌, ◌≡◌}
use scsi_cli.Clib.Number.{strtol, strtoull}
use scsi_cli.Clib.Printf.{snprintf_format, sprintf_format, truncated}
use scsi_cli.Sysfs.{open_sysfs_stats_file}
use scsi_cli.World.{System}

infixl 5 ◌>>=◌
abbrev pub ◌>>=◌ : {A B : Type 0} → Option A → (A → Option B) → Option B
none >>= f = none
some a >>= f = f a

-- snprintf(path, cap, "%s/%s", dir, name)
abbrev pub entry_path : ℕ → Text → Text → Text
entry_path cap dir name = truncated cap (dir ++ (text "/" ++ name))

-- snprintf(path, cap, "%s/device/%s", dir, name)
abbrev pub device_path : ℕ → Text → Text → Text
device_path cap dir name = truncated cap (dir ++ (text "/device/" ++ name))

module _ (sys : System) where
  -- snprintf(buf, n, open_sysfs_stats_file(path))
  unfoldable pub read_text : ℕ → Text → Option Text
  unfolding snprintf_format
  read_text n path = snprintf_format n (open_sysfs_stats_file sys path)

  -- snprintf(buf, n, "%s", open_sysfs_stats_file(path))
  unfoldable pub read_string : ℕ → Text → Option Text
  read_string n path = open_sysfs_stats_file sys path >>= λ s. some (truncated n s)

  -- the same, and strtoull(buf, &end, 0) into a 64-bit field
  unfoldable pub read_u64 : ℕ → Text → Option ℕ
  unfolding read_text
  read_u64 n path = read_text n path >>= λ s. some (strtoull s)

  -- the same, into an int
  unfoldable pub read_int : ℕ → Text → Option ℤ
  unfolding read_text
  read_int n path = read_text n path >>= λ s. some (to_int (strtoull s))

  -- sprintf(buf, open_sysfs_stats_file(path)) into `cap` bytes
  unfoldable pub print_text : ℕ → Text → Option Text
  unfolding sprintf_format
  print_text cap path = sprintf_format cap (open_sysfs_stats_file sys path)

  -- strtoull(open_sysfs_stats_file(path), &end, 0) into an int
  unfoldable pub convert_int : Text → Option ℤ
  convert_int path = open_sysfs_stats_file sys path >>= λ s. some (to_int (strtoull s))

  -- snprintf(buf, n, open_sysfs_stats_file(path)) and strtol(buf, &end, 0) into a 64-bit field
  unfoldable pub read_long : ℕ → Text → Option ℕ
  unfolding read_text
  read_long n path = read_text n path >>= λ s. some (strtol s)

  -- A number whose text was read.
  pub read_u64-read :
      (n : ℕ) (path s t : Text)
      → open_sysfs_stats_file sys path ≡ some s
      → snprintf_format n (some s) ≡ some t
      → read_u64 n path ≡ some (strtoull t)
  unfolding read_u64 read_text
  read_u64-read n path s t h k =
      ap (λ o. snprintf_format n o >>= λ u. some (strtoull u)) h
      ∙ ap (λ o. o >>= λ u. some (strtoull u)) k
