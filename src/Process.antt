-- ===== src/Process.antt =====
-- The directory process: the process table, the states that a process waits in, and the scheduler.
pub mod State
pub mod Store
pub mod Group
pub mod Destroy
pub mod Create
pub mod Wait
pub mod Schedule
pub mod Ready
pub mod Idle
pub mod Answering
pub mod Shape
pub mod Quiet
pub mod Sound
pub mod Reshape
pub mod Ended
pub mod Ending
pub mod Threads
pub mod Choose
pub mod Rounds
pub mod Turn
pub mod Fair
pub mod Switch
pub mod Calls
pub mod Slices
pub mod Gone
pub mod Added
mod Tests
