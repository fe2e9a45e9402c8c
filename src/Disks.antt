-- ===== src/Disks.antt =====
-- src/main/c/paisa-fleet/FindFullDisks.c: "df" on many machines, some at a time.
pub mod State
pub mod Args
pub mod Rows
pub mod Visit
pub mod Output
pub mod Loop
pub mod Added
pub mod Invariant
pub mod Begin
pub mod Kept
pub mod Live
pub mod OnNext
pub mod Steps
pub mod Runs
pub mod Fresh
pub mod Reach
pub mod Visits
mod Tests
