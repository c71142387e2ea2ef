-- ===== src/Sthread/System/Granted.antt =====
-- Which system calls are passed on.
pub mod Threads
pub mod Calls
pub mod Handled
pub mod Creation
pub mod Reached
