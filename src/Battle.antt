-- ===== src/Battle.antt =====
-- logic_work/battle/: a turn-based battle between two camps.
pub mod Common
pub mod Unit
pub mod Combat
pub mod Calc
pub mod SpeedBar
pub mod Round
pub mod Api
mod Tests
