-- ===== src/MultiThread.antt =====
-- Server-version-3-multi-thread: the parts of the multi-threaded server that differ from version 3.
pub mod Pool
pub mod Accept
pub mod Server
pub mod Main
pub mod Wakeup
pub mod Session
pub mod Logic
mod Tests
