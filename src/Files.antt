-- ===== src/Files.antt =====
-- What the daemon asks of the file system, through the Go package `os`.
pub mod Attempts
pub mod Disk
pub mod Atomic
pub mod Frames
