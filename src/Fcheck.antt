-- ===== src/Fcheck.antt =====
-- Project4/P4/fcheck.c, the file system checker.
pub mod Check
pub mod Image
pub mod Bits
pub mod Inodes
pub mod Root
pub mod Walk
pub mod Used
pub mod Dirs
pub mod Main
mod Tests
