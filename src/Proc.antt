-- ===== src/Proc.antt =====
-- proc.c: the process table, its life cycle, sleeping and waking, scheduling, and the lab's calls.
pub mod Table
pub mod Kernel
pub mod Life
pub mod Wait
pub mod Signal
pub mod Lab
pub mod Machine
pub mod Scan
pub mod Family
pub mod Wakeup
pub mod Slots
pub mod Adopt
pub mod Exit
pub mod Reap
pub mod Kill
pub mod Caller
pub mod Prime
pub mod Inv
pub mod Running
mod Tests
