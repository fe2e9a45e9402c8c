-- ===== src/Observe.antt =====
-- src/main/paisa/ObserveDeployedVersions.c: the state of a service on a stage.
pub mod Fetch
pub mod Program
pub mod Exits
pub mod Tests
