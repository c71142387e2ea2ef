-- ===== src/Trap.antt =====
-- sandbox/src/trap.c
pub mod Sys
pub mod Frame
pub mod Check
pub mod Thread
pub mod Handler
pub mod Race
mod Tests
