-- ===== src/Encoder/Sizes.antt =====
-- The bounds on the length of an instruction, for each encoder.
pub mod Mov
pub mod Arith
pub mod Flow
pub mod Sse2
pub mod Table
pub mod Estimate
