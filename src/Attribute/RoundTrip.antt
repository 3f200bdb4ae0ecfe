-- ===== src/Attribute/RoundTrip.antt =====
-- The attributes that the kernel prints on one line, and those that are numbers in decimal.
use scsi_cli.Prelude.{
  Text, [], ap, arith, if_null, length, none, refl, some, ℕ, ◌++◌, ◌<◌, ◌^◌, ◌∙◌, ◌∷◌, ◌≡◌,
}
use scsi_cli.Attribute.{read_u64, read_u64-read}
use scsi_cli.Clib.Number.RoundTrip.{strtoull-decimal}
use scsi_cli.Clib.Printf.{decimal, snprintf_format_plain}
use scsi_cli.Clib.Printf.Digits.{decimal-IsLine, decimal-IsPlain, decimal-length}
use scsi_cli.Clib.Stdio.{IsLine, fgets, fgets_line}
use scsi_cli.Print.{remove_newline}
use scsi_cli.Sysfs.{open_sysfs_stats_file}
use scsi_cli.World.{System}

remove_newline-line : (s : Text) → IsLine s → remove_newline (s ++ (b'\n' ∷ [])) ≡ s
unfolding remove_newline
remove_newline-line [] h = refl
remove_newline-line (c ∷ s) h = rw (h.0, remove_newline-line s h.1) refl

module _ (sys : System) where
  pub open_sysfs_stats_file-line :
      (path s more : Text)
      → IsLine s
      → length s < 63
      → sys.file path ≡ some (s ++ (b'\n' ∷ more))
      → open_sysfs_stats_file sys path ≡ some s
  unfolding open_sysfs_stats_file
  open_sysfs_stats_file-line path s more p h file =
      ap
        (λ o.
          if_null o none
            (λ contents. if_null (fgets 64 contents) none (λ p. some (remove_newline p))))
        file
      ∙ ap (λ o. if_null o none (λ p. some (remove_newline p))) (fgets_line 64 s more p h)
      ∙ ap some (remove_newline-line s p)

  -- An attribute whose first line is a 64-bit number in decimal, read into a buffer of more than
  -- 20 bytes and converted by strtoull with base 0, gives that number.
  pub read_u64-decimal :
      (size n : ℕ) (path more : Text)
      → 20 < size
      → n < 2 ^ 64
      → sys.file path ≡ some (decimal n ++ (b'\n' ∷ more))
      → read_u64 sys size path ≡ some n
  read_u64-decimal size n path more room h file =
      let short = decimal-length n in
      let got =
        open_sysfs_stats_file-line path (decimal n) more (decimal-IsLine n) (omega (arith, short))
          file in
      let copied =
        snprintf_format_plain size (decimal n) (decimal-IsPlain n) (omega (arith, short, room)) in
      read_u64-read sys size path (decimal n) (decimal n) got copied
      ∙ ap some (strtoull-decimal n h)
