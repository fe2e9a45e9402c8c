-- ===== src/Jenkins.antt =====
-- src/main/paisa/JenkinsReBuild.c: the state of the last build of a branch.
pub mod Args
pub mod Request
pub mod Response
pub mod Program
mod Tests
