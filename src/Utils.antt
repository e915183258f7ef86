-- ===== src/Utils.antt =====
-- The tools of utils/ that the other components share.
pub mod CalcTool
pub mod Rand
pub mod SafeUnit
pub mod SchedulerList
pub mod SchedulerLf
pub mod Scheduler
pub mod Reactor
pub mod TimedQueue
pub mod TimeManager
pub mod ReactorTimer
mod Tests
