-- ===== src/DebugLine.antt =====
-- The DWARF line table of output/debug_line.c. The buffer is the list of the bytes written so far;
-- a `uint64_t` difference is taken modulo 2 ^ 64.
pub mod Leb
pub mod Program
pub mod Rows
pub mod Meaning
mod Examples
