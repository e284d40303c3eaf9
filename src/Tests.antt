-- ===== src/Tests.antt =====
-- The theorems at concrete inputs.
pub mod Instances
pub mod Rows
pub mod Publishing
pub mod Records
pub mod Files
pub mod Failing
pub mod Threads
pub mod Log
pub mod Program
pub mod Shutdown
pub mod Several
pub mod Configuration
