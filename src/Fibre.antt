-- ===== src/Fibre.antt =====
-- scsi_fcp_utils.c.
pub mod Fails
pub mod Stats
pub mod Adapter
pub mod Port
pub mod Info
pub mod Ports
pub mod Requests
pub mod Keeps
pub mod Correct
pub mod HostLoop
pub mod Hosts
pub mod Leak
