-- ===== src/Flood.antt =====
-- src/main/paisa/HttpFlood.c: HTTP requests of many clients.
pub mod Args
pub mod Loop
pub mod Rule
pub mod Potential
pub mod Invariant
pub mod Pace
pub mod Exits
pub mod Tests
