-- ===== src/Fin.antt =====
-- src/main/paisa-SendAfterFin/SendAfterFin.c: a client that sends behind its FIN, and the server.
pub mod Args
pub mod Sides
pub mod Tcp
pub mod Talk
pub mod Queue
pub mod Honest
pub mod Serving
pub mod Outcome
pub mod Tests
