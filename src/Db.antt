-- ===== src/Db.antt =====
-- utils/db_*.cpp and utils/sql.cpp: the database, over the zdb library.
pub mod Text
pub mod Pool
pub mod Sql
pub mod Manager
mod Tests
