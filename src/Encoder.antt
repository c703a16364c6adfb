-- ===== src/Encoder.antt =====
-- src/encoder: the x86-64 encoder, from the register table to the dispatch over opcodes.
pub mod Registers
pub mod Bytes
pub mod Operands
pub mod Opcodes
pub mod Emit
pub mod Mov
pub mod Arith
pub mod Flow
pub mod Sse2
pub mod Table
pub mod Bounds
pub mod Sizes
pub mod Accepts
pub mod Agreement
pub mod Shape
pub mod RipRelative
pub mod Decode
pub mod ReadBack
mod Examples
