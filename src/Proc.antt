-- ===== src/Proc.antt =====
-- xv62/xv6/kernel/proc.c and sysproc.c: the process table with lottery tickets.
pub mod Types
pub mod Tickets
pub mod Create
pub mod Sleep
pub mod Finish
pub mod Lottery
pub mod Calls
pub mod Active
pub mod Balance
pub mod Exit
mod Tests
pub mod Keep
pub mod Reaping
pub mod Wake
pub mod Fork
