-- ===== src/Sched.antt =====
-- OS_Threaded_Scheduling: a multithreaded operating-system simulation and its CPU scheduler.
pub mod Types
pub mod Programs
pub mod Queue
pub mod Student
pub mod Simulator
pub mod Gantt
pub mod Irwl
pub mod Main
pub mod Options
pub mod Handlers
pub mod WakeUp
pub mod System
mod Tests
