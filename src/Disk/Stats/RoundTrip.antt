-- ===== src/Disk/Stats/RoundTrip.antt =====
-- scsi_disk_utils.c: get_disk_stats on the ten counters that the kernel prints in /sys/block/*/stat.
use scsi_cli.Prelude.{
  All, Bool, List, Text, [], ap, append_assoc, arith, false, length, length-append, none, pos, refl,
  some, suc, sym, take_all, text, true, zero, ℕ, ◌++◌, ◌<◌, ◌^◌, ◌∙◌, ◌∷◌, ◌≡◌, ◌≤◌,
}
use scsi_cli.Clib.Format.{repeat}
use scsi_cli.Clib.Number.{skip_spaces}
use scsi_cli.Clib.Printf.{decimal}
use scsi_cli.Clib.Printf.Digits.{EndsNumber, decimal-IsLine}
use scsi_cli.Clib.Scan.{scan_u64, scan_u64s}
use scsi_cli.Clib.Scan.RoundTrip.{scan_u64-decimal, scan_u64-skip_spaces, scan_u64s-more}
use scsi_cli.Clib.Stdio.{IsLine, append-IsLine, fgets_line, line}
use scsi_cli.Device.Disk.{ScsiDeviceInfo}
use scsi_cli.Device.Queue.{DiskStats}
use scsi_cli.Disk.Info.{store_stats}
use scsi_cli.Disk.Stats.{get_disk_stats}
use scsi_cli.World.{System, World, pure}

-- One counter in each field: how many spaces stand before it, beyond the first, and its value.
abbrev pub counters : List (ℕ × ℕ) → Text
counters [] = []
counters ((spaces, n) ∷ fields) = b' ' ∷ (repeat b' ' spaces ++ (decimal n ++ counters fields))

abbrev pub counter_values : List (ℕ × ℕ) → List ℕ
counter_values [] = []
counter_values ((spaces, n) ∷ fields) = n ∷ counter_values fields

repeat-IsLine : (n : ℕ) → IsLine (repeat b' ' n)
unfolding repeat
repeat-IsLine zero = tt
repeat-IsLine (suc n) = (refl, repeat-IsLine n)

counters-IsLine : (fields : List (ℕ × ℕ)) → IsLine (counters fields)
counters-IsLine [] = tt
counters-IsLine ((spaces, n) ∷ fields) =
    let rest =
      append-IsLine (decimal n) (counters fields) (decimal-IsLine n) (counters-IsLine fields) in
    (
      refl,
      append-IsLine (repeat b' ' spaces) (decimal n ++ counters fields) (repeat-IsLine spaces) rest,
    )

skip_spaces-repeat : (n : ℕ) (s : Text) → skip_spaces (repeat b' ' n ++ s) ≡ skip_spaces s
unfolding repeat skip_spaces
skip_spaces-repeat zero s = refl
skip_spaces-repeat (suc n) s = skip_spaces-repeat n s

-- Every counter is a 64-bit number.
abbrev pub AreU64 : List ℕ → Type 0
AreU64 v = All (λ n. n < 2 ^ 64) v

counters-EndsNumber :
    (fields : List (ℕ × ℕ)) (s : Text) → EndsNumber s → EndsNumber (counters fields ++ s)
counters-EndsNumber [] s h = h
counters-EndsNumber ((spaces, n) ∷ fields) s h = refl

counter :
    (spaces n : ℕ) (rest : Text)
    → n < 2 ^ 64
    → EndsNumber rest
    → scan_u64 (b' ' ∷ (repeat b' ' spaces ++ (decimal n ++ rest))) ≡ some (n, rest)
unfolding skip_spaces
counter spaces n rest h ends =
    scan_u64-skip_spaces (b' ' ∷ (repeat b' ' spaces ++ (decimal n ++ rest))) (decimal n ++ rest)
      (skip_spaces-repeat spaces (decimal n ++ rest))
    ∙ scan_u64-decimal n rest h ends

counters-append :
    (spaces n : ℕ) (fields : List (ℕ × ℕ)) (s : Text)
    → counters ((spaces, n) ∷ fields) ++ s
      ≡ b' ' ∷ (repeat b' ' spaces ++ (decimal n ++ (counters fields ++ s)))
counters-append spaces n fields s =
    ap (λ u. b' ' ∷ u)
      (append_assoc (repeat b' ' spaces) (decimal n ++ counters fields) s
        ∙ ap (λ u. repeat b' ' spaces ++ u) (append_assoc (decimal n) (counters fields) s))

scan_u64s-counters :
    (fields : List (ℕ × ℕ)) (s : Text)
    → AreU64 (counter_values fields)
    → EndsNumber s
    → scan_u64s (length fields) (counters fields ++ s) ≡ counter_values fields
unfolding scan_u64s
scan_u64s-counters [] s h ends = refl
scan_u64s-counters ((spaces, n) ∷ fields) s h ends =
    scan_u64s-more (length fields) n (counters ((spaces, n) ∷ fields) ++ s) (counters fields ++ s) (
      ap scan_u64 (counters-append spaces n fields s)
      ∙ counter spaces n (counters fields ++ s) h.0 (counters-EndsNumber fields s ends))
    ∙ ap (λ v. n ∷ v) (scan_u64s-counters fields s h.1 ends)

-- The counters in the order in which the kernel prints them.
abbrev pub printed_counters : DiskStats → List ℕ
printed_counters s =
    s.ios.0 ∷ s.merges.0 ∷ s.sectors.0 ∷ s.ticks.0 ∷ s.ios.1 ∷ s.merges.1 ∷ s.sectors.1 ∷ s.ticks.1
    ∷ s.io_ticks ∷ s.time_in_queue ∷ []

counter_values-length : (fields : List (ℕ × ℕ)) → length (counter_values fields) ≡ length fields
counter_values-length [] = refl
counter_values-length (f ∷ fields) = ap suc (counter_values-length fields)

scan_u64s-line :
    (fields : List (ℕ × ℕ)) (s : DiskStats) (rest : Text)
    → counter_values fields ≡ printed_counters s
    → AreU64 (printed_counters s)
    → EndsNumber rest
    → scan_u64s 10 (counters fields ++ rest) ≡ printed_counters s
scan_u64s-line fields s rest e h ends =
    let ten : length fields ≡ 10 = sym (counter_values-length fields) ∙ ap length e in
    ap (λ n. scan_u64s n (counters fields ++ rest)) (sym ten)
    ∙ scan_u64s-counters fields rest (rw e h) ends
    ∙ e

-- The first counter may stand at the start of the line.
abbrev pub columns : Bool → List (ℕ × ℕ) → Text
columns true fields = counters fields
columns false [] = []
columns false ((spaces, n) ∷ fields) = repeat b' ' spaces ++ (decimal n ++ counters fields)

columns-IsLine : (leading : Bool) (fields : List (ℕ × ℕ)) → IsLine (columns leading fields)
columns-IsLine true fields = counters-IsLine fields
columns-IsLine false [] = tt
columns-IsLine false ((spaces, n) ∷ fields) = (counters-IsLine ((spaces, n) ∷ fields)).1

-- A space in front makes no difference.
scan_u64s-space : (k : ℕ) (s : Text) → scan_u64s (suc k) s ≡ scan_u64s (suc k) (b' ' ∷ s)
unfolding scan_u64s skip_spaces
scan_u64s-space k s =
    ap (λ o. elim o [ none ↦ [] | some (v, rest) ↦ v ∷ scan_u64s k rest ])
      (scan_u64-skip_spaces s (b' ' ∷ s) refl)

scan_u64s-columns :
    (leading : Bool) (fields : List (ℕ × ℕ)) (s : Text)
    → scan_u64s 10 (columns leading fields ++ s) ≡ scan_u64s 10 (counters fields ++ s)
scan_u64s-columns true fields s = refl
scan_u64s-columns false [] s = refl
scan_u64s-columns false ((spaces, n) ∷ fields) s =
    scan_u64s-space 9 ((repeat b' ' spaces ++ (decimal n ++ counters fields)) ++ s)

-- Where the stat file of a disk holds ten 64-bit counters in decimal, with any spaces before the
-- first and one or more between two, on a first line of fewer than 255 characters, and the path
-- fits its buffer, get_disk_stats gives 0 and stores exactly these counters.
pub get_disk_stats-counters :
    (sys : System) (d : ScsiDeviceInfo) (name : Text) (w : World) (leading : Bool)
    (fields : List (ℕ × ℕ)) (rest more : Text) (s : DiskStats)
    → counter_values fields ≡ printed_counters s
    → AreU64 (printed_counters s)
    → IsLine rest
    → EndsNumber rest
    → length (columns leading fields ++ rest) < 255
    → length name ≤ 239
    → sys.file (text "/sys/block/" ++ (name ++ text "/stat"))
      ≡ some ((columns leading fields ++ rest) ++ (b'\n' ∷ more))
    → get_disk_stats sys d name w
      ≡ some ((pos 0, record d { dstat = record s { msec = d.dstat.msec } }), w)
unfolding get_disk_stats store_stats pure
get_disk_stats-counters sys d name w leading fields rest more s e h line ends short short_name
      file =
    let whole : length (text "/sys/block/" ++ (name ++ text "/stat")) ≤ 255 =
      omega (arith, length-append name (text "/stat"), short_name) in
    let path = take_all 255 (text "/sys/block/" ++ (name ++ text "/stat")) whole in
    let read =
      fgets_line 256 (columns leading fields ++ rest) more
        (append-IsLine (columns leading fields) rest (columns-IsLine leading fields) line) short in
    let numbers =
      scan_u64s-columns leading fields (rest ++ (b'\n' ∷ []))
      ∙ scan_u64s-line fields s (rest ++ (b'\n' ∷ [])) e h (newline rest ends) in
    rw (path, file, read, append_assoc (columns leading fields) rest (b'\n' ∷ []), numbers) refl
  where
    newline : (rest : Text) → EndsNumber rest → EndsNumber (rest ++ (b'\n' ∷ []))
    newline [] ends = refl
    newline (c ∷ rest) ends = ends
