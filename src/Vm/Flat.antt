-- ===== src/Vm/Flat.antt =====
-- Paging against a memory without paging: what Virtual_Memory (student-src and simulator-src/pagesim.c)
-- promises the processes of a trace.
pub mod Tables
pub mod Pages
pub mod Mapping
pub mod Contents
pub mod Covered
pub mod Paged
pub mod Evict
pub mod Fault
pub mod Spec
pub mod Access
pub mod Served
pub mod Start
pub mod Started
pub mod Stop
pub mod Stopped
pub mod Implements
pub mod Commands
pub mod Refines
pub mod Sound
pub mod Trace
pub mod Freed
pub mod Counted
mod Tests
