-- ===== src/Cmd/Counters.antt =====
-- scsi_test.c: the command `stats disk` on the counters that the kernel prints.
use scsi_cli.Prelude.{
  Bool, List, Option, Text, [], ap, arith, false, if◌then◌else◌, is_negative, leb, length, none,
  pos, refl, some, suc, sym, take, take_all, text, true, ℕ, ◌++◌, ◌+◌, ◌-◌, ◌<◌, ◌==◌, ◌∙◌, ◌∷◌,
  ◌≡◌, ◌≤◌,
}
use scsi_cli.Clib.Printf.{snprintf_into}
use scsi_cli.Clib.Printf.Digits.{EndsNumber}
use scsi_cli.Clib.Stdio.{IsLine, line}
use scsi_cli.Cmd.Dispatch.{parse_cmd-find_command, run_handler}
use scsi_cli.Cmd.Main.{handle_cmd, main, parse_cmd, report}
use scsi_cli.Cmd.Stats.{cmd_stats, stats_device, stats_disk}
use scsi_cli.Cmd.Tables.{cmd_str, find_command, strip_dashes, validate_subcommand}
use scsi_cli.Device.{disk_stats}
use scsi_cli.Device.Disk.{ScsiDeviceInfo, zero_scsi_device}
use scsi_cli.Device.Queue.{DiskStats}
use scsi_cli.Disk.Stats.{get_disk_stats}
use scsi_cli.Disk.Stats.RoundTrip.{
  AreU64, columns, counter_values, get_disk_stats-counters, printed_counters,
}
use scsi_cli.Loop.{Flow, give, next}
use scsi_cli.Sysfs.{alloc_scsi_dev, put_scsi_dev}
use scsi_cli.World.{System, World, emit, free, lift, malloc, pure, say, shown, ◌>>=◌, ◌>>◌}
use scsi_cli.World.Runs.{after_run}

snprintf_into-whole :
    (name : Text) → length name ≤ 31 → snprintf_into 32 (length name + 2) name ≡ some name
unfolding snprintf_into
snprintf_into-whole name h =
    let nonzero : (length name + 2 == 0) ≡ false = ground arith in
    let whole : take (length name + 2 - 1) name ≡ name =
      take_all (length name + 2 - 1) name (omega arith) in
    let fits : leb (length name + 1) 32 ≡ true = ground (arith, h) in rw (nonzero, whole, fits) refl

module _ (sys : System) where
  -- The state after the statistics were shown.
  abbrev pub stats_shown : DiskStats → Text → ℕ → World → World
  stats_shown s name n w = record w { budget = n; out = shown (disk_stats s name) ∷ w.out }

  stats_disk-shown :
      (name : Text) (d : ScsiDeviceInfo) (n : ℕ) (w : World)
      → ((u : World) → get_disk_stats sys zero_scsi_device name u ≡ some ((pos 0, d), u))
      → stats_disk sys name (record w { budget = suc n })
        ≡ some (next, stats_shown d.dstat name n w)
  unfolding stats_disk alloc_scsi_dev put_scsi_dev malloc free emit pure ◌>>=◌
  stats_disk-shown name d n w h =
      let live : w.live + 1 - 1 ≡ w.live = omega arith in
      ap
        (λ o. elim o as (λ x. Option (Flow × World)) [
          | none ↦ none
          | some ((err, d), v) ↦
              (if is_negative err
                  then (do
                    say "Can not get statistics for %s, (err=%d)"
                    put_scsi_dev
                    pure (give (pos 0)))
                  else (do emit (shown (disk_stats d.dstat name)); put_scsi_dev; pure next))
                v
        ])
        (h (record w { budget = n; live = w.live + 1 }))
      ∙ ap
          (λ k. some (
            next,
            record w { budget = n; live = k; out = shown (disk_stats d.dstat name) ∷ w.out },
          ))
          live

  -- The command line.
  abbrev pub stats_of_disk : Text → Text → List Text
  stats_of_disk program name = program ∷ text "stats" ∷ text "disk" ∷ name ∷ []

  stats_device-shown :
      (name : Text) (d : ScsiDeviceInfo) (n : ℕ) (w : World)
      → ((u : World) → get_disk_stats sys zero_scsi_device name u ≡ some ((pos 0, d), u))
      → stats_device sys (text "disk") name (record w { budget = suc n })
        ≡ some (pos 0, stats_shown d.dstat name n w)
  unfolding stats_device pure ◌>>=◌
  stats_device-shown name d n w h =
      after_run (stats_disk sys name) _ (record w { budget = suc n }) _ next
        (stats_disk-shown name d n w h)

  cmd_stats-shown :
      (program name : Text) (d : ScsiDeviceInfo) (n : ℕ) (w : World)
      → length name ≤ 31
      → ((u : World) → get_disk_stats sys zero_scsi_device name u ≡ some ((pos 0, d), u))
      → cmd_stats sys (stats_of_disk program name) (record w { budget = suc n })
        ≡ some (pos 0, stats_shown d.dstat name n w)
  unfolding cmd_stats validate_subcommand lift ◌>>=◌
  cmd_stats-shown program name d n w short h =
      let u : World = record w { budget = suc n } in
      after_run (lift (snprintf_into 32 (length name + 2) name)) (stats_device sys (text "disk")) u
        u name (ap (λ o. lift o u) (snprintf_into-whole name short))
      ∙ stats_device-shown name d n w h

  parse_cmd-shown :
      (program name : Text) (d : ScsiDeviceInfo) (n : ℕ) (w : World)
      → length name ≤ 31
      → ((u : World) → get_disk_stats sys zero_scsi_device name u ≡ some ((pos 0, d), u))
      → parse_cmd sys (stats_of_disk program name) (record w { budget = suc n })
        ≡ some (pos 0, stats_shown d.dstat name n w)
  unfolding strip_dashes find_command cmd_str run_handler
  parse_cmd-shown program name d n w short h =
      ap (λ m. m (record w { budget = suc n }))
        (parse_cmd-find_command sys (stats_of_disk program name) (text "stats") refl)
      ∙ cmd_stats-shown program name d n w short h

  handle_cmd-shown :
      (program name : Text) (d : ScsiDeviceInfo) (n : ℕ) (w : World)
      → length name ≤ 31
      → ((u : World) → get_disk_stats sys zero_scsi_device name u ≡ some ((pos 0, d), u))
      → handle_cmd sys (stats_of_disk program name) (record w { budget = suc (suc n) })
        ≡ some (pos 0, stats_shown d.dstat name n w)
  unfolding handle_cmd malloc lift free pure report strip_dashes ◌>>=◌
  handle_cmd-shown program name d n w short h =
      let u : World = record w { live = w.live + 1 } in
      let parsed : (parse_cmd sys (stats_of_disk program name) >>= report)
            (record u { budget = suc n })
          ≡ some (pos 0, stats_shown d.dstat name n u) =
        after_run (parse_cmd sys (stats_of_disk program name)) report (record u { budget = suc n })
          _ (pos 0) (parse_cmd-shown program name d n u short h) in
      let live : w.live + 1 - 1 ≡ w.live = omega arith in
      after_run (parse_cmd sys (stats_of_disk program name) >>= report) (λ ret. (do free; pure ret))
        (record u { budget = suc n }) (stats_shown d.dstat name n u) (pos 0) parsed
      ∙ ap
          (λ k. some (
            pos 0,
            record w { budget = n; live = k; out = shown (disk_stats d.dstat name) ∷ w.out },
          ))
          live

  -- With the arguments stats, disk and the name of a disk, of at most 31 characters, whose stat
  -- file holds ten 64-bit counters in decimal, with any spaces before the first and one or more
  -- between two, on a first line of fewer than 255 characters, and with two calls of malloc that
  -- succeed, main shows exactly these counters, prints and writes nothing else, frees what it
  -- allocated, leaves no directory stream open that was not, and exits with 0.
  pub main-stats_disk :
      (program name : Text) (n : ℕ) (w : World) (leading : Bool) (fields : List (ℕ × ℕ))
      (rest more : Text) (s : DiskStats)
      → length name ≤ 31
      → w.budget ≡ suc (suc n)
      → counter_values fields ≡ printed_counters s
      → s.msec ≡ 0
      → AreU64 (printed_counters s)
      → IsLine rest
      → EndsNumber rest
      → length (columns leading fields ++ rest) < 255
      → sys.file (text "/sys/block/" ++ (name ++ text "/stat"))
        ≡ some ((columns leading fields ++ rest) ++ (b'\n' ∷ more))
      → main sys (stats_of_disk program name) w
        ≡ some (0, record w { budget = n; out = shown (disk_stats s name) ∷ w.out })
  unfolding main pure ◌>>=◌
  main-stats_disk program name n w leading fields rest more s short memory e zero_msec h line ends
        fits file =
      let d : ScsiDeviceInfo = record zero_scsi_device { dstat = record s { msec = 0 } } in
      let stats = λ (u : World).
        get_disk_stats-counters sys zero_scsi_device name u leading fields rest more s e h line ends
          fits (omega (arith, short)) file in
      let whole : record s { msec = 0 } ≡ s = ap (λ k. record s { msec = k }) (sym zero_msec) in
      ap (λ k. main sys (stats_of_disk program name) (record w { budget = k })) memory
      ∙ after_run (handle_cmd sys (stats_of_disk program name)) _
          (record w { budget = suc (suc n) }) _ (pos 0)
          (handle_cmd-shown program name d n w short stats)
      ∙ ap (λ t. some (0, record w { budget = n; out = shown (disk_stats t name) ∷ w.out })) whole
