-- ===== src/Disk/Queue.antt =====
-- scsi_disk_utils.c: get_disk_queue_data, the attributes below /sys/block/<disk>/queue.
use scsi_cli.Prelude.{Option, Text, some, text, ◌++◌}
use scsi_cli.Attribute.{entry_path, read_string, read_u64, ◌>>=◌}
use scsi_cli.Clib.Printf.{truncated}
use scsi_cli.Device.Queue.{DiskQueueData}
use scsi_cli.World.{System}

-- scsi_path
abbrev pub queue_path : Text → Text
queue_path disk_path = truncated 256 (disk_path ++ text "/queue")

-- get_disk_queue_data: `none` is undefined. The fields that it does not store keep their value.
unfoldable pub get_disk_queue_data : System → Text → DiskQueueData → Option DiskQueueData
get_disk_queue_data sys disk_path q = do
  let scsi_path = queue_path disk_path
  chunk_sectors ← read_u64 sys 32 (entry_path 2048 scsi_path (text "chunk_sectors"))
  fua ← read_u64 sys 32 (entry_path 2048 scsi_path (text "fua"))
  hw_sector_size ← read_u64 sys 32 (entry_path 2048 scsi_path (text "hw_sector_size"))
  io_poll ← read_u64 sys 32 (entry_path 2048 scsi_path (text "io_poll"))
  io_poll_delay ← read_u64 sys 32 (entry_path 2048 scsi_path (text "io_poll_delay"))
  iostats ← read_u64 sys 32 (entry_path 2048 scsi_path (text "iostats"))
  io_timeout ← read_u64 sys 32 (entry_path 2048 scsi_path (text "io_timeout"))
  physical_block_size ← read_u64 sys 32 (entry_path 2048 scsi_path (text "physical_block_size"))
  logical_block_size ← read_u64 sys 32 (entry_path 2048 scsi_path (text "logical_block_size"))
  minimum_io_size ← read_u64 sys 32 (entry_path 2048 scsi_path (text "minimum_io_size"))
  optimal_io_size ← read_u64 sys 32 (entry_path 2048 scsi_path (text "optimal_io_size"))
  discard_zeroes_data ← read_u64 sys 32 (entry_path 2048 scsi_path (text "discard_zeroes_data"))
  discard_max_hw_bytes ← read_u64 sys 32 (entry_path 2048 scsi_path (text "discard_max_hw_bytes"))
  discard_max_bytes ← read_u64 sys 32 (entry_path 2048 scsi_path (text "discard_max_bytes"))
  nr_zones ← read_u64 sys 32 (entry_path 2048 scsi_path (text "nr_zones"))
  nomerges ← read_u64 sys 32 (entry_path 2048 scsi_path (text "nomerges"))
  nr_requests ← read_u64 sys 32 (entry_path 2048 scsi_path (text "nr_requests"))
  zone_append_max_bytes ← read_u64 sys 32 (entry_path 2048 scsi_path (text "zone_append_max_bytes"))
  zone_write_granularity ←
      read_u64 sys 32 (entry_path 2048 scsi_path (text "zone_write_granularity"))
  zoned ← read_u64 sys 32 (entry_path 2048 scsi_path (text "zoned"))
  read_ahead_kb ← read_u64 sys 32 (entry_path 2048 scsi_path (text "read_ahead_kb"))
  write_same_max_bytes ← read_u64 sys 32 (entry_path 2048 scsi_path (text "write_same_max_bytes"))
  write_zeroes_max_bytes ←
      read_u64 sys 32 (entry_path 2048 scsi_path (text "write_zeroes_max_bytes"))
  max_discard_segments ← read_u64 sys 32 (entry_path 2048 scsi_path (text "max_discard_segments"))
  max_hw_sectors_kb ← read_u64 sys 32 (entry_path 2048 scsi_path (text "max_hw_sectors_kb"))
  max_integrity_segments ←
      read_u64 sys 32 (entry_path 2048 scsi_path (text "max_integrity_segments"))
  max_sectors_kb ← read_u64 sys 32 (entry_path 2048 scsi_path (text "max_sectors_kb"))
  max_segments ← read_u64 sys 32 (entry_path 2048 scsi_path (text "max_segments"))
  max_segment_size ← read_u64 sys 32 (entry_path 2048 scsi_path (text "max_segment_size"))
  rq_affinity ← read_u64 sys 32 (entry_path 2048 scsi_path (text "rq_affinity"))
  stable_writes ← read_u64 sys 32 (entry_path 2048 scsi_path (text "stable_writes"))
  rotational ← read_u64 sys 32 (entry_path 2048 scsi_path (text "rotational"))
  add_random ← read_u64 sys 32 (entry_path 2048 scsi_path (text "add_random"))
  virt_boundary_mask ← read_u64 sys 32 (entry_path 2048 scsi_path (text "virt_boundary_mask"))
  wbt_lat_usec ← read_u64 sys 32 (entry_path 2048 scsi_path (text "wbt_lat_usec"))
  dax ← read_u64 sys 32 (entry_path 2048 scsi_path (text "dax"))
  write_cache ← read_string sys 32 (entry_path 2048 scsi_path (text "write_cache"))
  scheduler ← read_string sys 32 (entry_path 2048 scsi_path (text "scheduler"))
  some (record q {
    chunk_sectors = chunk_sectors;
    fua = fua;
    hw_sector_size = hw_sector_size;
    io_poll = io_poll;
    io_poll_delay = io_poll_delay;
    iostats = iostats;
    io_timeout = io_timeout;
    physical_block_size = physical_block_size;
    logical_block_size = logical_block_size;
    minimum_io_size = minimum_io_size;
    optimal_io_size = optimal_io_size;
    discard_zeroes_data = discard_zeroes_data;
    discard_max_hw_bytes = discard_max_hw_bytes;
    discard_max_bytes = discard_max_bytes;
    nr_zones = nr_zones;
    nomerges = nomerges;
    nr_requests = nr_requests;
    zone_append_max_bytes = zone_append_max_bytes;
    zone_write_granularity = zone_write_granularity;
    zoned = zoned;
    read_ahead_kb = read_ahead_kb;
    write_same_max_bytes = write_same_max_bytes;
    write_zeroes_max_bytes = write_zeroes_max_bytes;
    max_discard_segments = max_discard_segments;
    max_hw_sectors_kb = max_hw_sectors_kb;
    max_integrity_segments = max_integrity_segments;
    max_sectors_kb = max_sectors_kb;
    max_segments = max_segments;
    max_segment_size = max_segment_size;
    rq_affinity = rq_affinity;
    stable_writes = stable_writes;
    rotational = rotational;
    add_random = add_random;
    virt_boundary_mask = virt_boundary_mask;
    wbt_lat_usec = wbt_lat_usec;
    dax = dax;
    write_cache = some write_cache;
    scheduler = some scheduler;
  })
