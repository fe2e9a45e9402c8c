-- ===== src/Ocexec.antt =====
-- src/main/c/postshit/launch/openshift/ocexec.c: a start of a launcher for commands in pods.
pub mod Program
mod Tests
