-- ===== src/Vm.antt =====
-- Virtual_Memory: a simulator of demand paging with page replacement and a swap space.
pub mod Types
pub mod Swap
pub mod Random
pub mod Paging
pub mod Simulator
pub mod Address
pub mod Victim
pub mod Frames
pub mod Entries
pub mod Access
pub mod Restart
pub mod Validity
pub mod Consistency
pub mod Checked
pub mod Passes
pub mod Verdict
pub mod Options
pub mod Audited
pub mod Choices
mod Checks
pub mod Report
pub mod Tally
pub mod Counts
pub mod SwapSpace
pub mod Flat
mod Tests
