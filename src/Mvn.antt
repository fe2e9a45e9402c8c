-- ===== src/Mvn.antt =====
-- src/main/c/postshit/launch/mvn: the programs that launch maven with a command line put together.
pub mod Append
pub mod Args
pub mod Launch
pub mod Started
pub mod Main
pub mod Success
pub mod VersionsSet
mod Tests
