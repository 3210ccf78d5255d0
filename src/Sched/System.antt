-- ===== src/Sched/System.antt =====
-- The whole of OS_Threaded_Scheduling/src: the scheduler of student.c under the simulator of os-sim.c
-- with the programs of process.c.
pub mod Work
pub mod Sound
pub mod Fill
pub mod Moves
pub mod Leave
pub mod Process
pub mod Wake
pub mod Io
pub mod Create
pub mod Rounds
pub mod Start
pub mod Reach
pub mod Progress
pub mod Counting
pub mod Chart
mod Tests
