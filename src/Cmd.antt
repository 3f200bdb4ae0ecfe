-- ===== src/Cmd.antt =====
-- scsi_test.c and scsi_help.c.
pub mod Completes
pub mod Counters
pub mod Tables
pub mod Help
pub mod Requests
pub mod List
pub mod Reset
pub mod Stats
pub mod Show
pub mod Main
pub mod Keeps
pub mod Dispatch
pub mod Known
pub mod Refused
pub mod Status
pub mod Writes
pub mod Leak
pub mod Overflow
