-- ===== src/Server.antt =====
-- service_core and single_server: the processes, their message handlers and the table of clients.
pub mod MsgHandler
pub mod Sentry
pub mod Process
mod Tests
