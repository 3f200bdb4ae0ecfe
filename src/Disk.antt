-- ===== src/Disk.antt =====
-- scsi_disk_utils.c.
pub mod Completes
pub mod Fails
pub mod Types
pub mod Queue
pub mod Nvme
pub mod Scsi
pub mod Info
pub mod Stats
pub mod Enclosure
pub mod Lists
pub mod Show
pub mod Requests
pub mod Keeps
pub mod Correct
pub mod Found
