-- ===== src/Examples.antt =====
-- The theorems at concrete inputs, component by component.
mod Levels
pub mod Digital
pub mod Compile
mod Requests
mod Service
mod Bridges
mod Scheduler
mod Runs
