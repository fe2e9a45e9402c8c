-- ===== src/Mdns.antt =====
-- src/main/c/foo/MdnsSd.c: a query for services on the local network.
pub mod Header
pub mod Program
mod Tests
