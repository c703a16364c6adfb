-- ===== src/Unicode.antt =====
-- src/unicode/arabic.c: UTF-8 decoding and the character classes of the Arabic source text.
pub mod Utf8
pub mod Classes
mod Examples
