-- ===== src/Lexer.antt =====
-- The lexer: the keywords of lexer/keywords.c, and of lexer/lexer.c the reading position, the number
-- literals, the register names and the scans of words.
pub mod Cursor
pub mod Keywords
pub mod Numbers
pub mod Search
pub mod Registers
pub mod Identifiers
mod Examples
