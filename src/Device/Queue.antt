-- ===== src/Device/Queue.antt =====
-- scsi.h: the statistics and the request queue of a disk. A `char *` is NULL or a text.
use scsi_cli.Prelude.{Option, Text, none, ℕ}

pub record DiskStats : Type 0 where
  pub ios : ℕ × ℕ
  pub merges : ℕ × ℕ
  pub sectors : ℕ × ℕ
  pub ticks : ℕ × ℕ
  pub io_ticks : ℕ
  pub time_in_queue : ℕ
  pub msec : ℕ

-- All bytes 0.
abbrev pub zero_disk_stats : DiskStats
zero_disk_stats = record {
  ios = (0, 0);
  merges = (0, 0);
  sectors = (0, 0);
  ticks = (0, 0);
  io_ticks = 0;
  time_in_queue = 0;
  msec = 0;
}

pub record DiskQueueData : Type 0 where
  pub chunk_sectors : ℕ
  pub fua : ℕ
  pub hw_sector_size : ℕ
  pub io_poll : ℕ
  pub io_poll_delay : ℕ
  pub iostats : ℕ
  pub io_timeout : ℕ
  pub wbt_lat_usec : ℕ
  pub dax : ℕ
  pub add_random : ℕ
  pub virt_boundary_mask : ℕ
  pub stable_writes : ℕ
  pub rotational : ℕ
  pub rq_affinity : ℕ
  pub scheduler : Option Text
  pub write_cache : Option Text
  pub physical_block_size : ℕ
  pub logical_block_size : ℕ
  pub minimum_io_size : ℕ
  pub optimal_io_size : ℕ
  pub discard_zeroes_data : ℕ
  pub discard_max_hw_bytes : ℕ
  pub discard_granularity : ℕ
  pub discard_max_bytes : ℕ
  pub nomerges : ℕ
  pub nr_requests : ℕ
  pub nr_zones : ℕ
  pub zone_append_max_bytes : ℕ
  pub zone_write_granularity : ℕ
  pub zoned : ℕ
  pub read_ahead_kb : ℕ
  pub write_same_max_bytes : ℕ
  pub write_zeroes_max_bytes : ℕ
  pub max_discard_segments : ℕ
  pub max_hw_sectors_kb : ℕ
  pub max_integrity_segments : ℕ
  pub max_sectors_kb : ℕ
  pub max_segments : ℕ
  pub max_segment_size : ℕ
  pub async_depth : ℕ
  pub fifo_batch : ℕ
  pub front_merges : ℕ
  pub read_expire : ℕ
  pub write_expire : ℕ
  pub writes_starved : ℕ

-- All bytes 0.
abbrev pub zero_queue_data : DiskQueueData
zero_queue_data = record {
  chunk_sectors = 0;
  fua = 0;
  hw_sector_size = 0;
  io_poll = 0;
  io_poll_delay = 0;
  iostats = 0;
  io_timeout = 0;
  wbt_lat_usec = 0;
  dax = 0;
  add_random = 0;
  virt_boundary_mask = 0;
  stable_writes = 0;
  rotational = 0;
  rq_affinity = 0;
  scheduler = none;
  write_cache = none;
  physical_block_size = 0;
  logical_block_size = 0;
  minimum_io_size = 0;
  optimal_io_size = 0;
  discard_zeroes_data = 0;
  discard_max_hw_bytes = 0;
  discard_granularity = 0;
  discard_max_bytes = 0;
  nomerges = 0;
  nr_requests = 0;
  nr_zones = 0;
  zone_append_max_bytes = 0;
  zone_write_granularity = 0;
  zoned = 0;
  read_ahead_kb = 0;
  write_same_max_bytes = 0;
  write_zeroes_max_bytes = 0;
  max_discard_segments = 0;
  max_hw_sectors_kb = 0;
  max_integrity_segments = 0;
  max_sectors_kb = 0;
  max_segments = 0;
  max_segment_size = 0;
  async_depth = 0;
  fifo_batch = 0;
  front_merges = 0;
  read_expire = 0;
  write_expire = 0;
  writes_starved = 0;
}
