-- ===== src/Clib.antt =====
-- The parts of the C library that the program uses, as functions on byte lists.
pub mod Compare
pub mod Printf
pub mod Stdio
pub mod Number
pub mod Scan
pub mod Format
pub mod Memory
