-- ===== src/Merge.antt =====
-- src/main/paisa/LogMerge.c: log files put together by the time of their entries.
pub mod Args
pub mod Pattern
pub mod Source
pub mod Program
pub mod Spec
pub mod Heads
pub mod Prefix
pub mod Small
pub mod Full
pub mod Marks
pub mod Lowest
pub mod Together
pub mod Opened
pub mod Repeats
pub mod Rounds
pub mod Fuel
mod Tests
pub mod Below
pub mod Oldest
