-- ===== src/Pem.antt =====
-- src/main/c/foo/PemCodec.c: the PEM decoder, which reads stdin and writes stdout.
pub mod Base64
pub mod Alphabet
pub mod Group
pub mod Stream
pub mod Exact
pub mod Document
pub mod Armor
pub mod Program
mod Tests
