-- ===== src/Disk/Stats.antt =====
-- scsi_disk_utils.c: get_disk_stats.
pub mod RoundTrip
use scsi_cli.Prelude.{Text, eio, if_null, if◌then◌else◌, length, pos, text, ℤ, ◌++◌, ◌==◌}
use scsi_cli.Clib.Printf.{truncated}
use scsi_cli.Clib.Scan.{scan_u64s}
use scsi_cli.Clib.Stdio.{fgets}
use scsi_cli.Device.Disk.{ScsiDeviceInfo}
use scsi_cli.Disk.Info.{store_stats}
use scsi_cli.World.{M, System, pure, say, ◌>>◌}

-- get_disk_stats: the result is 0 where all ten numbers were read and 1 where fewer were.
unfoldable pub get_disk_stats : System → ScsiDeviceInfo → Text → M (ℤ × ScsiDeviceInfo)
unfolding fgets scan_u64s store_stats
get_disk_stats sys d disk_name =
    if_null (sys.file (truncated 256 (text "/sys/block/" ++ (disk_name ++ text "/stat"))))
      (do say "file open %s returned NULL\n"; pure (eio, d))
      (λ contents. if_null (fgets 256 contents) (pure (eio, d)) (λ p.
        let values = scan_u64s 10 p in
        pure (
          if length values == 10 then pos 0 else pos 1,
          record d { dstat = store_stats values d.dstat },
        )))
