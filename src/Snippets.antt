-- ===== src/Snippets.antt =====
-- src/main/c/common/snippets.c: pieces of code to be copied elsewhere.
pub mod Buffer
pub mod Humanize
pub mod Tests
