-- ===== src/Asn1.antt =====
-- src/main/c/foo/Asn1Digger.c: ASN.1 from stdin as text on stdout, by a machine of five functions.
pub mod State
pub mod Names
pub mod Header
pub mod Dump
pub mod Loop
mod Frame
pub mod Termination
pub mod Asserts
pub mod Buffers
pub mod Gpg
pub mod Views
pub mod Runs
pub mod Values
pub mod Items
pub mod Sequences
pub mod Der
pub mod OpStack
pub mod Program
mod Tests
