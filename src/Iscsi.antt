-- ===== src/Iscsi.antt =====
-- scsi_iscsi_utils.c.
pub mod Attributes
pub mod Fill
pub mod Disks
pub mod Show
pub mod Info
pub mod Requests
pub mod Keeps
