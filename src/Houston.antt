-- ===== src/Houston.antt =====
-- src/main/paisa/HoustonLogGet.c: the log files of the houston pod.
pub mod Args
pub mod Pods
pub mod Lines
pub mod Program
pub mod Fetch
mod Tests
